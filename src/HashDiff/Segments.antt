-- ===== src/HashDiff/Segments.antt =====
-- The segments of `split_range` of dbcli/src/delta_diff/hash_diff.rs, on any domain.
use hepta_dbcli.Prelude.{
  ℕ, zero, suc, ◌+◌, ◌-◌, ◌/◌, ◌==◌, ◌<◌, Bool, true, false, List, [], ◌∷◌, if◌then◌else◌, ◌≡◌,
  refl, arith,
}
use hepta_dbcli.Prelude.Int.{ℤ, ◌≤ℤ◌, ltb_ℤ}
use hepta_dbcli.HashDiff.{next_cut, cuts, span_of, pieces, split_range}

-- Segments that are not empty and follow each other from `lo`, the last of which ends at `hi`.
abbrev pub Chain : ℤ → ℤ → List (ℤ × ℤ) → Type 0
Chain lo hi [] = lo ≡ hi
Chain lo hi ((a, b) ∷ rest) = (a ≡ lo) × (ltb_ℤ a b ≡ true) × Chain b hi rest

-- What the segments cover is the domain, or more than it.
abbrev pub Covers : ℤ → ℤ → List (ℤ × ℤ) → Type 0
Covers lo hi segments = (end : ℤ) × (hi ≤ℤ end) × Chain lo end segments

not_less : (a b : ℤ) → ltb_ℤ a b ≡ false → b ≤ℤ a
not_less a b h = ground arith

module _ (lo hi : ℤ) (step n : ℕ) where
  pub last_cut : (i : ℕ) → suc i ≡ n → next_cut lo hi step n i ≡ hi
  unfolding next_cut
  last_cut i h = rw (at_end i n h) refl
    where
      at_end : (i n : ℕ) → suc i ≡ n → (i == n - 1) ≡ true
      at_end i n h = ground arith

  cuts-Covers :
      (k i : ℕ) (cur : ℤ) → suc k + i ≡ n → Covers cur hi (cuts lo hi step n (suc k) i cur)
  unfolding cuts
  cuts-Covers zero i cur h = rw (cuts, last_cut i (omega (arith, h))) (at_last (ltb_ℤ cur hi) refl)
    where
      at_last : (b : Bool) → ltb_ℤ cur hi ≡ b → Covers cur hi (if b then (cur, hi) ∷ [] else [])
      at_last true e = (hi, omega arith, (refl, e, refl))
      at_last false e = (cur, not_less cur hi e, refl)
  cuts-Covers (suc k) i cur h =
      at_cut (ltb_ℤ cur (next_cut lo hi step n i)) refl
        (cuts-Covers k (suc i) (next_cut lo hi step n i) (omega arith))
        (cuts-Covers k (suc i) cur (omega arith))
    where
      at_cut :
          (b : Bool)
          → ltb_ℤ cur (next_cut lo hi step n i) ≡ b
          → Covers
              (next_cut lo hi step n i)
              hi
              (cuts lo hi step n (suc k) (suc i) (next_cut lo hi step n i))
          → Covers cur hi (cuts lo hi step n (suc k) (suc i) cur)
          → Covers cur hi (
              if b
              then (cur, next_cut lo hi step n i)
                ∷ cuts lo hi step n (suc k) (suc i) (next_cut lo hi step n i)
              else cuts lo hi step n (suc k) (suc i) cur)
      at_cut true e pushed rest = (pushed.0, pushed.1, (refl, e, pushed.2))
      at_cut false e pushed rest = rest

pieces-pos : (n span : ℕ) → 0 < pieces n span
pieces-pos n span = omega arith

-- Whatever the width of the domain is, the segments that it is split into are not empty and follow each
-- other from its lower end, and end at its upper end or beyond it.
pub split_range-Covers :
    (lo hi : ℤ) (n : ℕ) → ltb_ℤ lo hi ≡ true → 0 < n → Covers lo hi (split_range lo hi n)
unfolding split_range
split_range-Covers lo hi n h k =
    rw (split_range, h, positive n k)
      (some_piece (pieces n (span_of lo hi)) (pieces-pos n (span_of lo hi)))
  where
    positive : (n : ℕ) → 0 < n → (n == 0) ≡ false
    positive n h = ground arith

    some_piece :
        (count : ℕ) → 0 < count → Covers lo hi (cuts lo hi (span_of lo hi / count) count count 0 lo)
    some_piece zero p = absurd (omega arith)
    some_piece (suc c) p = cuts-Covers lo hi (span_of lo hi / suc c) (suc c) c 0 lo (omega arith)
