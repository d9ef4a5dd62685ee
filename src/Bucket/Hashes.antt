-- ===== src/Bucket/Hashes.antt =====
-- The hashes of a side: what `count_map` counts, and which hashes `multiset_diff` goes through.
use mathlib.Core.List.{Permᴰ}
use hepta_dbcli.Prelude.{
  ℕ, Bool, true, false, ◌||◌, List, [], ◌∷◌, ◌++◌, Option, none, some, if◌then◌else◌, ◌≡◌, refl,
  sym, ap, ◌∙◌, arith, Bool-cases, if-true, if-false, ◌⊎◌, inl, inr,
}
use hepta_dbcli.Prelude.Sort.{sort, sort-Perm}
use hepta_dbcli.Prelude.Assoc.{find, upsert, IsEqTest, IsEqTest-IsEquivTest, find-upsert}
use hepta_dbcli.Text.{Text, text_eq, one_of}
use hepta_dbcli.Text.Laws.{text_eq_iff}
use hepta_dbcli.Report.{Row, text_le}
use hepta_dbcli.Bucket.{
  or_zero, row_hash, row_count, HashCounts, insert_count, count_map_from, count_map, count_of,
  cons_new, dedup, hashes,
}

pub same_text : IsEqTest text_eq
same_text = record {
  eq_refl = λ s. (text_eq_iff s s).1 refl;
  eq_path = λ s t e. (text_eq_iff s t).0 e;
}

-- The specification: what a side's rows say of a hash. A later row of the hash replaces an earlier.
abbrev pub counts_for : Text → Option Text → Bool
unfolding text_eq
counts_for h none = false
counts_for h (some k) = text_eq k h

abbrev pub reported : ℕ → List Row → Text → ℕ
unfolding counts_for row_count
reported n [] h = n
reported n (row ∷ rows) h =
    reported (if counts_for h (row_hash row) then row_count row else n) rows h

pub count_of-insert_count :
    (o : Option Text) (c : ℕ) (m : HashCounts) (h : Text)
    → count_of (insert_count o c m) h ≡ (if counts_for h o then c else count_of m h)
unfolding count_of insert_count counts_for
count_of-insert_count none c m h = refl
count_of-insert_count (some k) c m h =
    rw (find-upsert text_eq (IsEqTest-IsEquivTest text_eq same_text) (λ o. c) k h m)
      (branch (text_eq k h) (find text_eq m h))
  where
    branch :
        (t : Bool) (o : Option ℕ) → or_zero (if t then some c else o) ≡ (if t then c else or_zero o)
    branch true o = refl
    branch false o = refl

pub count_of-count_map_from :
    (m : HashCounts) (rows : List Row) (h : Text)
    → count_of (count_map_from m rows) h ≡ reported (count_of m h) rows h
unfolding count_map_from reported
count_of-count_map_from m [] h = refl
count_of-count_map_from m (row ∷ rows) h =
    count_of-count_map_from (insert_count (row_hash row) (row_count row) m) rows h
    ∙ ap (λ (n : ℕ). reported n rows h) (count_of-insert_count (row_hash row) (row_count row) m h)

pub or_swap : (a b c : Bool) → (a || (b || c)) ≡ (b || (a || c))
or_swap a b c = ground arith

pub or_assoc : (a b c : Bool) → (a || (b || c)) ≡ ((a || b) || c)
or_assoc a b c = ground arith

pub one_of-Perm : (h : Text) {xs ys : List Text} → Permᴰ xs ys → one_of h xs ≡ one_of h ys
unfolding one_of
one_of-Perm h Permᴰ.nil = refl
one_of-Perm h (Permᴰ.cons e d) = λ i. text_eq (e i) h || one_of-Perm h d i
one_of-Perm h (Permᴰ.swap {a = a} {b = b} {a' = a'} {b' = b'} {l = l} e f) =
    (λ i. text_eq (e i) h || (text_eq (f i) h || one_of h l))
    ∙ or_swap (text_eq b' h) (text_eq a' h) (one_of h l)
one_of-Perm h (Permᴰ.trans d e) = one_of-Perm h d ∙ one_of-Perm h e

pub one_of-append :
    (h : Text) (xs ys : List Text) → one_of h (xs ++ ys) ≡ (one_of h xs || one_of h ys)
unfolding one_of
one_of-append h [] ys = refl
one_of-append h (x ∷ xs) ys =
    rw (one_of-append h xs ys) (or_assoc (text_eq x h) (one_of h xs) (one_of h ys))

pub one_of-cons_new :
    (h x : Text) (ys : List Text) → one_of h (cons_new x ys) ≡ (text_eq x h || one_of h ys)
unfolding one_of
one_of-cons_new h x [] = refl
one_of-cons_new h x (y ∷ ys) = elim (Bool-cases (text_eq x y)) [
  | inl t ↦ rw t (
      merged (text_eq x h) (text_eq y h) (one_of h ys)
        (ap (λ (k : Text). text_eq k h) (same_text.eq_path x y t)))
  | inr f ↦ rw f refl
]
  where
    merged : (a b c : Bool) → a ≡ b → (b || c) ≡ (a || (b || c))
    merged a b c e = ground arith

pub one_of-dedup : (h : Text) (xs : List Text) → one_of h (dedup xs) ≡ one_of h xs
unfolding one_of dedup
one_of-dedup h [] = refl
one_of-dedup h (x ∷ xs) =
    one_of-cons_new h x (dedup xs) ∙ ap (λ (t : Bool). text_eq x h || t) (one_of-dedup h xs)

-- A hash that no key shows is counted 0.
pub absent-count_of : (h : Text) (m : HashCounts) → one_of h (hashes m) ≡ false → count_of m h ≡ 0
unfolding one_of count_of find
absent-count_of h [] e = refl
absent-count_of h ((k, c) ∷ m) e = elim (Bool-cases (text_eq k h)) [
  | inl t ↦ absurd (ground arith)
  | inr f ↦ rw f (absent-count_of h m (ground arith))
]

unfoldable pub all_hashes : List Row → List Row → List Text
all_hashes l r = dedup (sort text_le (hashes (count_map l) ++ hashes (count_map r)))

pub one_of-all_hashes :
    (h : Text) (l r : List Row)
    → one_of h (all_hashes l r)
      ≡ (one_of h (hashes (count_map l)) || one_of h (hashes (count_map r)))
unfolding all_hashes
one_of-all_hashes h l r =
    one_of-dedup h (sort text_le (hashes (count_map l) ++ hashes (count_map r)))
    ∙ one_of-Perm h (sort-Perm text_le (hashes (count_map l) ++ hashes (count_map r)))
    ∙ one_of-append h (hashes (count_map l)) (hashes (count_map r))

pub counted : (rows : List Row) (h : Text) → count_of (count_map rows) h ≡ reported 0 rows h
unfolding count_map count_of find
counted rows h = count_of-count_map_from [] rows h

pub one_of-upsert :
    (h k : Text) (c : ℕ) (m : HashCounts)
    → one_of h (hashes (upsert text_eq (λ o. c) k m)) ≡ true
    → (text_eq k h ≡ true) ⊎ (one_of h (hashes m) ≡ true)
unfolding one_of upsert
one_of-upsert h k c [] e = inl (ground arith)
one_of-upsert h k c ((j, d) ∷ m) e = elim (Bool-cases (text_eq j k)) [
  | inl t ↦ inr (sym (ap (λ (l : HashCounts). one_of h (hashes l)) (if-true _ _ t)) ∙ e)
  | inr f ↦
      let e' = sym (ap (λ (l : HashCounts). one_of h (hashes l)) (if-false _ _ f)) ∙ e in
      elim (Bool-cases (text_eq j h)) [
        | inl t ↦ inr (ground arith)
        | inr g ↦ elim (one_of-upsert h k c m (ground arith)) [
          | inl t ↦ inl t
          | inr t ↦ inr (ground arith)
        ]
      ]
]
