-- ===== src/Bucket/Multiset.antt =====
-- Which hashes `multiset_diff` reports, and with which status.
use mathlib.Core.Path.{Path, subst}
use mathlib.Core.Option.{some-injective}
use hepta_dbcli.Prelude.{
  ℕ, ltb, ◌==◌, Bool, true, false, List, [], ◌∷◌, Option, none, some, if◌then◌else◌, ◌≡◌, refl, sym,
  ap, ◌∙◌, arith, Bool-cases, if-true, if-false, inl, inr,
}
use hepta_dbcli.Text.{Text, text_eq, one_of}
use hepta_dbcli.Report.{Value, string, Row, DiffRow, DiffStatus, missing_left, missing_right}
use hepta_dbcli.Bucket.{
  HashCounts, count_map, count_of, hash_row, push_row, diff_hashes, multiset_diff, count_label,
}
use hepta_dbcli.Bucket.Hashes.{
  same_text, reported, absent-count_of, all_hashes, one_of-all_hashes, counted,
}
use hepta_dbcli.Bucket.Ascii.{IsAscii, AsciiHashes, byte_prefix-IsAscii, all_hashes-IsAscii, Has}

abbrev pub verdict : ℕ → ℕ → Option DiffStatus
verdict lc rc = if lc == rc then none else some (if ltb rc lc then missing_right else missing_left)

-- The status of the first row of the report that shows the hash.
abbrev shows : Text → Option Row → Bool
unfolding text_eq
shows h (some (string k ∷ vs)) = text_eq k h
shows h _ = false

abbrev pub status_in : Text → List DiffRow → Option DiffStatus
unfolding shows
status_in h [] = none
status_in h (row ∷ rows) = if shows h row.left then some row.status else status_in h rows

pushed :
    (h k : Text) (lc rc : ℕ) (o : Option Value) (rows : Option (List DiffRow)) (out : List DiffRow)
    → push_row k lc rc o rows ≡ some out
    → (rest : List DiffRow) × (rows ≡ some rest)
      × (status_in h out ≡ (
          if text_eq k h
          then some (if ltb rc lc then missing_right else missing_left)
          else status_in h rest))
unfolding status_in
pushed h k lc rc none rows out e = cc
pushed h k lc rc (some key) none out e = cc
pushed h k lc rc (some key) (some rest) out e = (
  rest,
  refl,
  subst (λ (o : List DiffRow). status_in h o ≡ status_in h (hash_row k lc rc key ∷ rest))
      (some-injective _ _ e) refl,
)

status_in-diff_hashes :
    (lm rm : HashCounts) (h : Text) (hs : List Text) (out : List DiffRow)
    → diff_hashes lm rm hs ≡ some out
    → status_in h out ≡ (if one_of h hs then verdict (count_of lm h) (count_of rm h) else none)
unfolding diff_hashes status_in one_of
status_in-diff_hashes lm rm h [] out e = ap (status_in h) (sym (some-injective _ _ e))
status_in-diff_hashes lm rm h (k ∷ hs) out e = elim (Bool-cases (count_of lm k == count_of rm k)) [
  | inl same ↦
      status_in-diff_hashes lm rm h hs out (sym (if-true _ _ same) ∙ e)
      ∙ elim (Bool-cases (text_eq k h)) [
        | inl t ↦ rw t (
            let equal = ap verdict_at (sym (same_text.eq_path k h t)) ∙ if-true _ _ same in
            rw equal (either (one_of h hs)))
        | inr f ↦ rw f refl
      ]
  | inr differ ↦
      let (rest, went_on, first) =
        pushed h k (count_of lm k) (count_of rm k) _ (diff_hashes lm rm hs) out
          (sym (if-false _ _ differ) ∙ e) in
      first ∙ elim (Bool-cases (text_eq k h)) [
        | inl t ↦ rw t (sym (if-false _ _ differ) ∙ ap verdict_at (same_text.eq_path k h t))
        | inr f ↦ rw f (status_in-diff_hashes lm rm h hs rest went_on)
      ]
]
  where
    verdict_at : Text → Option DiffStatus
    verdict_at i = verdict (count_of lm i) (count_of rm i)

    either : (t : Bool) → Path (Option DiffStatus) (if t then none else none) none
    either true = refl
    either false = refl

status_in-returned :
    (l r : List Row) (out : List DiffRow) (h : Text)
    → multiset_diff l r ≡ some out
    → status_in h out ≡ verdict (reported 0 l h) (reported 0 r h)
unfolding multiset_diff all_hashes
status_in-returned l r out h e =
    status_in-diff_hashes (count_map l) (count_map r) h (all_hashes l r) out e
    ∙ elim (Bool-cases (one_of h (all_hashes l r))) [
      | inl t ↦ if-true _ _ t ∙ (λ i. verdict (counted l h i) (counted r h i))
      | inr f ↦
          let neither = sym (one_of-all_hashes h l r) ∙ f in
          if-false _ _ f ∙ (λ i.
            verdict ((sym (absent-count_of h (count_map l) (ground arith)) ∙ counted l h) i)
              ((sym (absent-count_of h (count_map r) (ground arith)) ∙ counted r h) i))
    ]

diff_hashes-Has :
    (lm rm : HashCounts) (hs : List Text)
    → ((h : Text) → one_of h hs ≡ true → IsAscii h)
    → Has (diff_hashes lm rm hs)
unfolding diff_hashes one_of count_label
diff_hashes-Has lm rm [] a = ([], refl)
diff_hashes-Has lm rm (h ∷ hs) a =
    let (rest, e) = diff_hashes-Has lm rm hs (λ k m. a k (ground arith)) in
    let (t, f) = byte_prefix-IsAscii 12 h (a h (ground (arith, same_text.eq_refl h))) in
    elim (Bool-cases (count_of lm h == count_of rm h)) [
      | inl same ↦ (rest, if-true _ _ same ∙ e)
      | inr differ ↦ (
        _,
        if-false _ _ differ ∙ (λ i.
            push_row h (count_of lm h) (count_of rm h)
              (count_label h (count_of lm h) (count_of rm h) (f i)) (e i)),
      )
    ]

-- When the hashes are printed in ASCII, the comparison succeeds, and it reports a hash exactly when
-- the sides count it differently: as missing on the side that counts less.
pub multiset_diff-status_in :
    (l r : List Row)
    → AsciiHashes l
    → AsciiHashes r
    → (out : List DiffRow) × (multiset_diff l r ≡ some out)
      × ((h : Text) → status_in h out ≡ verdict (reported 0 l h) (reported 0 r h))
unfolding multiset_diff all_hashes
multiset_diff-status_in l r a b =
    let (out, e) =
      diff_hashes-Has (count_map l) (count_map r) (all_hashes l r) (all_hashes-IsAscii l r a b) in
    (out, e, λ h. status_in-returned l r out h e)
