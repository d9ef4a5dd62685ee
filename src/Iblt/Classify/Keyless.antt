-- ===== src/Iblt/Classify/Keyless.antt =====
-- Which rows and counts `classify_keyless` reports, and when it reports nothing.
use mathlib.Core.List.{Permᴰ, append-nil, append_assoc}
use mathlib.Core.Path.{subst}
use hepta_dbcli.Prelude.{
  ℕ, ◌+◌, ◌≤◌, ◌<◌, leb, ◌==◌, Bool, true, false, List, [], ◌∷◌, ◌++◌, map, Option, none, some,
  if◌then◌else◌, ◌≡◌, refl, sym, ap, ◌∙◌, arith, Bool-cases, inl, inr,
}
use hepta_dbcli.Prelude.Sort.{sort, sort-Perm, count_if}
use hepta_dbcli.Prelude.Assoc.{find, upsert, IsEqTest-IsEquivTest, find-upsert, upsert-missing}
use hepta_dbcli.Report.{DiffRow, missing_left, missing_right}
use hepta_dbcli.Iblt.{Entry}
use hepta_dbcli.Iblt.Classify.{
  no_sides, or_no_sides, mark, sides_by_key, key_row, Counted, status_of, bump, count_key,
  sort_rows, count_keys, row_le, classify_keyless,
}
use hepta_dbcli.Iblt.Classify.AnyOrder.{Same, count_keys-Perm}
use hepta_dbcli.Iblt.Classify.Repeats.{
  same_number, occurrences, has_repeat-distinct, has_repeat-repeated,
}

abbrev pub own_sides : Entry → Bool × Bool
own_sides e = mark e.from_left no_sides

abbrev pub row_of : Entry → DiffRow
row_of e = key_row e.key (if e.from_left then missing_right else missing_left)

abbrev present : Option (Bool × Bool) → ℕ
present none = 0
present (some s) = 1

absent : (o : Option (Bool × Bool)) → present o ≡ 0 → o ≡ none
absent none h = refl
absent (some s) h = absurd (omega (arith, h))

sides_by_key-distinct :
    (m : List (ℕ × (Bool × Bool))) (es : List Entry)
    → ((k : ℕ) → present (find ◌==◌ m k) + occurrences k es ≤ 1)
    → sides_by_key m es ≡ m ++ map (λ e. (e.key, own_sides e)) es
unfolding sides_by_key
sides_by_key-distinct m [] h = sym (append-nil m)
sides_by_key-distinct m (e ∷ es) h =
    let here = h e.key in
    let new = absent (find ◌==◌ m e.key) (ground arith) in
    sides_by_key-distinct (upsert ◌==◌ (λ o. mark e.from_left (or_no_sides o)) e.key m) es (λ k.
      let there = h k in
      rw
        (find-upsert ◌==◌ (IsEqTest-IsEquivTest ◌==◌ same_number)
          (λ o. mark e.from_left (or_no_sides o)) e.key k m)
        (ground arith))
    ∙ ap (λ (l : List (ℕ × (Bool × Bool))). l ++ map (λ e. (e.key, own_sides e)) es)
        (upsert-missing ◌==◌ (λ o. mark e.from_left (or_no_sides o)) e.key m new)
    ∙ append_assoc m _ _

other_number : (j k : ℕ) → (j == k) ≡ false → (k == j) ≡ false
other_number j k h = ground arith

found : (k : ℕ) (s : Bool × Bool) (m : List (ℕ × (Bool × Bool))) → find ◌==◌ ((k, s) ∷ m) k ≡ some s
unfolding find
found k s m = rw (same_number.eq_refl k) refl

-- The map holds the sides of every one of the entries.
abbrev Holds : List (ℕ × (Bool × Bool)) → List Entry → Type 0
Holds m [] = Unit {0}
Holds m (e ∷ es) = (find ◌==◌ m e.key ≡ some (own_sides e)) × Holds m es

Holds-cons :
    (k : ℕ) (s : Bool × Bool) (m : List (ℕ × (Bool × Bool))) (es : List Entry)
    → occurrences k es ≡ 0
    → Holds m es
    → Holds ((k, s) ∷ m) es
unfolding find
Holds-cons k s m [] h a = tt
Holds-cons k s m (e ∷ es) h (f, a) = elim (Bool-cases (e.key == k)) [
  | inl y ↦ absurd (ground arith)
  | inr n ↦ (rw (other_number e.key k n) f, Holds-cons k s m es (ground arith) a)
]

map-Holds :
    (es : List Entry)
    → ((k : ℕ) → occurrences k es ≤ 1)
    → Holds (map (λ e. (e.key, own_sides e)) es) es
map-Holds [] h = tt
map-Holds (e ∷ es) h = (
  found e.key (own_sides e) _,
  Holds-cons e.key (own_sides e) _ es (let here = h e.key in ground arith)
      (map-Holds es (λ k. let there = h k in ground arith)),
)

count_keys-Holds :
    (m : List (ℕ × (Bool × Bool))) (es : List Entry)
    → Holds m es
    → count_keys m (map (λ e. e.key) es) ≡ (
      count_if (λ e. if e.from_left then false else true) es,
      count_if (λ e. e.from_left) es,
      map row_of es,
    )
unfolding count_keys
count_keys-Holds m [] a = refl
count_keys-Holds m (e ∷ es) (f, a) = rw (f, count_keys-Holds m es a) (branch e.from_left)
  where
    branch :
        (t : Bool)
        → count_key e.key (mark t no_sides) (status_of (mark t no_sides)) (
          count_if (λ e. if e.from_left then false else true) es,
          count_if (λ e. e.from_left) es,
          map row_of es,
        )
          ≡ (
            bump
                (if t then false else true)
                (count_if (λ e. if e.from_left then false else true) es),
            bump t (count_if (λ e. e.from_left) es),
            key_row e.key (if t then missing_right else missing_left) ∷ map row_of es,
          )
    branch true = refl
    branch false = refl

map-keys :
    (es : List Entry) → map (λ (k, s). k) (map (λ e. (e.key, own_sides e)) es) ≡ map (λ e. e.key) es
map-keys [] = refl
map-keys (e ∷ es) = ap (λ (l : List ℕ). e.key ∷ l) (map-keys es)

sort_rows-Same : (c d : Counted) → Same c d → Same (sort_rows c) d
unfolding Same
sort_rows-Same (ml, mr, rows) (nl, nr, others) (x, y, z) =
    (x, y, Permᴰ.trans (sort-Perm row_le rows) z)

abbrev from_right : Entry → Bool
from_right e = if e.from_left then false else true

-- The result counts the entries of each side, and its rows are those of the entries.
abbrev pub Reports : List Entry → Option Counted → Type 0
Reports es none = ⊥
Reports es (some (ml, mr, rows)) =
    (ml ≡ count_if from_right es)
    × (mr ≡ count_if (λ e. e.from_left) es)
    × Permᴰ rows (map row_of es)

-- When no key occurs twice, the counts are those of the entries of each side, and the rows are one
-- for each entry, with its key and its side.
pub classify_keyless-Reports :
    (es : List Entry) → ((k : ℕ) → occurrences k es ≤ 1) → Reports es (classify_keyless es)
unfolding classify_keyless Same
classify_keyless-Reports es h =
    let m : List (ℕ × (Bool × Bool)) = map (λ e. (e.key, own_sides e)) es in
    let keys = map (λ e. e.key) es in
    let sorted =
      subst (λ (ks : List ℕ). Permᴰ (sort leb ks) keys) (sym (map-keys es)) (sort-Perm leb keys) in
    rw
      (
        has_repeat-distinct [] es (λ k. let there = h k in omega arith),
        sides_by_key-distinct [] es (λ k. let there = h k in omega arith),
      )
      (sort_rows-Same (count_keys m (sort leb (map (λ (k, s). k) m))) _ (
        subst (Same (count_keys m (sort leb (map (λ (k, s). k) m))))
          (count_keys-Holds m es (map-Holds es h)) (count_keys-Perm m sorted)))

-- When a key occurs twice, nothing is reported.
pub classify_keyless-repeated :
    (es : List Entry) (k : ℕ) → 1 < occurrences k es → classify_keyless es ≡ none
unfolding classify_keyless
classify_keyless-repeated es k h = rw (has_repeat-repeated [] es k (omega arith) (omega arith)) refl
