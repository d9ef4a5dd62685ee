-- ===== src/Iblt/Classify/Repeats.antt =====
-- The keys of the entries in the keyless classification of dbcli/src/delta_diff/iblt_diff.rs.
use hepta_dbcli.Prelude.{
  ℕ, suc, ◌+◌, ◌≤◌, ◌<◌, ltb, ◌==◌, true, false, List, [], ◌∷◌, if◌then◌else◌, ◌≡◌, refl, sym, ap,
  ◌∙◌, arith, Bool-cases, inl, inr,
}
use hepta_dbcli.Prelude.Sort.{count_if}
use hepta_dbcli.Prelude.Assoc.{find, IsEqTest, IsEqTest-IsEquivTest, find-upsert}
use hepta_dbcli.Iblt.{Entry}
use hepta_dbcli.Iblt.Classify.{or_zero, see, has_repeat}

pub same_number : IsEqTest ◌==◌
same_number = record { eq_refl = λ k. ground arith; eq_path = λ k j e. ground arith }

-- How many entries have the key.
abbrev pub occurrences : ℕ → List Entry → ℕ
occurrences k es = count_if (λ e. e.key == k) es

or_zero-seen :
    (k j : ℕ) (seen : List (ℕ × ℕ))
    → or_zero (find ◌==◌ (see j seen) k)
      ≡ (if j == k then suc (or_zero (find ◌==◌ seen k)) else or_zero (find ◌==◌ seen k))
unfolding see
or_zero-seen k j seen =
    rw (find-upsert ◌==◌ (IsEqTest-IsEquivTest ◌==◌ same_number) (λ o. suc (or_zero o)) j k seen)
      (elim (Bool-cases (j == k)) [ inl e ↦ rw e refl | inr e ↦ rw e refl ])

ltb-false : (n : ℕ) → n ≤ 1 → ltb 1 n ≡ false
ltb-false n h = ground arith

pub has_repeat-distinct :
    (seen : List (ℕ × ℕ)) (es : List Entry)
    → ((k : ℕ) → or_zero (find ◌==◌ seen k) + occurrences k es ≤ 1)
    → has_repeat seen es ≡ false
unfolding has_repeat
has_repeat-distinct seen [] h = refl
has_repeat-distinct seen (e ∷ es) h =
    let here = h e.key in
    rw (ltb-false (suc (or_zero (find ◌==◌ seen e.key))) (ground arith)) (
      has_repeat-distinct (see e.key seen) es
        (λ k. let there = h k in rw (or_zero-seen k e.key seen) (ground arith)))

unseen :
    (j k : ℕ) (seen : List (ℕ × ℕ))
    → ltb 1 (suc (or_zero (find ◌==◌ seen j))) ≡ false
    → (j == k) ≡ true
    → or_zero (find ◌==◌ seen k) ≡ 0
unseen j k seen n y =
    ap (λ (i : ℕ). or_zero (find ◌==◌ seen i)) (sym (same_number.eq_path j k y)) ∙ ground arith

pub has_repeat-repeated :
    (seen : List (ℕ × ℕ)) (es : List Entry) (k : ℕ)
    → or_zero (find ◌==◌ seen k) ≤ 1
    → 1 < or_zero (find ◌==◌ seen k) + occurrences k es
    → has_repeat seen es ≡ true
unfolding has_repeat
has_repeat-repeated seen [] k h r = absurd (omega (arith, h, r))
has_repeat-repeated seen (e ∷ es) k h r =
    elim (Bool-cases (ltb 1 (suc (or_zero (find ◌==◌ seen e.key))))) [
      | inl y ↦ rw y refl
      | inr n ↦
          let before = λ (y : (e.key == k) ≡ true). unseen e.key k seen n y in
          rw n (
            has_repeat-repeated (see e.key seen) es k
              (rw (or_zero-seen k e.key seen) (elim (Bool-cases (e.key == k)) [
                | inl y ↦ rw (y, before y) (omega arith)
                | inr d ↦ rw d h
              ]))
              (rw (or_zero-seen k e.key seen) (ground arith)))
    ]
