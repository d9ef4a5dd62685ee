-- ===== src/HashDiff/Tiles.antt =====
-- The segments of `split_range` of dbcli/src/delta_diff/hash_diff.rs, on a domain whose width fits into i64.
use hepta_dbcli.Prelude.{
  ℕ, zero, suc, ◌+◌, ◌-◌, ◌*◌, ◌/◌, ◌%◌, ◌^◌, ◌==◌, ◌≤◌, ◌<◌, min, true, false, length, ltb, ◌≡◌,
  refl, ap, ◌∙◌, arith, lt→ltb,
}
use mathlib.Core.Path.{subst}
use hepta_dbcli.Prelude.Int.{ℤ, pos, negsuc, pos_part, neg_part, ◌+ℤ◌, ◌-ℤ◌, ltb_ℤ, int_laws}
use hepta_dbcli.HashDiff.{
  as_i64, bits_of, add_i64, sub_i64, next_cut, cuts, span_of, pieces, split_range,
}
use hepta_dbcli.HashDiff.Segments.{Chain, last_cut}

abbrev pub IsInt64 : ℤ → Type 0
IsInt64 z = (pos_part z < 2 ^ 63) × (neg_part z ≤ 2 ^ 63)

div_le : (w m : ℕ) → 0 < m → w / m * m ≤ w
div_le w m h = grind arith

div_pos : (w m : ℕ) → 0 < m → m ≤ w → 0 < w / m
div_pos w m h k = grind arith

kept : (a : ℕ) → a < 2 ^ 64 → a % 2 ^ 64 ≡ a
kept a h = omega arith

as_i64-small : (a : ℕ) → a < 2 ^ 63 → as_i64 a ≡ pos a
unfolding as_i64
as_i64-small a h = rw (as_i64, kept a (omega arith), lt→ltb a (2 ^ 63) h) refl

as_i64-large : (a : ℕ) → a < 2 ^ 63 → as_i64 (2 ^ 64 - 1 - a) ≡ negsuc a
unfolding as_i64
as_i64-large a h =
    rw (as_i64, kept (2 ^ 64 - 1 - a) (omega arith), not_small (2 ^ 64 - 1 - a) (omega arith))
      (ap negsuc (omega arith))
  where
    not_small : (r : ℕ) → 2 ^ 63 ≤ r → ltb r (2 ^ 63) ≡ false
    not_small r h = ground arith

as_i64-bits_of : (z : ℤ) → IsInt64 z → as_i64 (bits_of z (2 ^ 64)) ≡ z
as_i64-bits_of (pos a) h = rw (kept a (omega arith)) (as_i64-small a h.0)
as_i64-bits_of (negsuc a) h = rw (kept a (omega arith)) (as_i64-large a (omega arith))

pub add_i64-exact : (a b : ℤ) → IsInt64 (a +ℤ b) → add_i64 a b ≡ a +ℤ b
unfolding add_i64
add_i64-exact a b h = as_i64-bits_of (a +ℤ b) h

sub_i64-exact : (a b : ℤ) → IsInt64 (a -ℤ b) → sub_i64 a b ≡ a -ℤ b
unfolding sub_i64
sub_i64-exact a b h = as_i64-bits_of (a -ℤ b) h

add_sub : (lo : ℤ) (w : ℕ) → lo +ℤ pos w -ℤ lo ≡ pos w
add_sub lo w = omega int_laws

span_of-exact : (lo : ℤ) (w : ℕ) → w < 2 ^ 63 → span_of lo (lo +ℤ pos w) ≡ w
unfolding span_of
span_of-exact lo w h =
    rw (sub_i64-exact (lo +ℤ pos w) lo (rw (add_sub lo w) (h, omega arith)), add_sub lo w)
      (omega arith)

from_start : (lo : ℤ) (s : ℕ) → lo +ℤ pos (s * 0) ≡ lo
from_start lo s = let none : s * 0 ≡ 0 = omega arith in rw none (omega int_laws)

rises_from : (lo : ℤ) (w : ℕ) → 0 < w → ltb_ℤ lo (lo +ℤ pos w) ≡ true
rises_from lo w h = lt→ltb _ _ (omega int_laws)

grows : (lo : ℤ) (a b : ℕ) → a < b → ltb_ℤ (lo +ℤ pos a) (lo +ℤ pos b) ≡ true
grows lo a b h = lt→ltb _ _ (omega int_laws)

between-IsInt64 :
    (lo : ℤ) (a w : ℕ) → IsInt64 lo → IsInt64 (lo +ℤ pos w) → a ≤ w → IsInt64 (lo +ℤ pos a)
unfolding ◌+ℤ◌
between-IsInt64 (pos l) a w h k le = (ground arith, ground arith)
between-IsInt64 (negsuc l) a w h k le = (ground arith, ground arith)

module _ (lo : ℤ) (w step n : ℕ) (lo_fits : IsInt64 lo) (hi_fits : IsInt64 (lo +ℤ pos w))
    (narrow : w < 2 ^ 63) (some_step : 0 < step) (within : step * n ≤ w) where
  abbrev hi : ℤ
  hi = lo +ℤ pos w

  abbrev cut : ℕ → ℤ
  cut i = lo +ℤ pos (step * i)

  before_end : (i : ℕ) → i < n → step * (i + 1) ≤ w
  before_end i h = grind arith

  next_cut-exact : (i : ℕ) → suc i < n → next_cut lo hi step n i ≡ cut (suc i)
  unfolding next_cut
  next_cut-exact i h =
      rw
        (
          next_cut,
          not_last i n h,
          wide (step * (i + 1)) (omega (arith, before_end i (omega arith))),
          as_i64-small (step * (i + 1)) (omega (arith, before_end i (omega arith))),
        )
        (add_i64-exact lo (pos (step * (i + 1)))
            (between-IsInt64 lo (step * (i + 1)) w lo_fits hi_fits (before_end i (omega arith)))
          ∙ ap cut (omega arith))
    where
      not_last : (i n : ℕ) → suc i < n → (i == n - 1) ≡ false
      not_last i n h = ground arith

      wide : (a : ℕ) → a < 2 ^ 63 → a % 2 ^ 128 ≡ a
      wide a h = omega arith

  rises : (i : ℕ) → ltb_ℤ (cut i) (cut (suc i)) ≡ true
  rises i = grows lo (step * i) (step * suc i) (grind arith)

  ends : (i : ℕ) → suc i ≡ n → ltb_ℤ (cut i) hi ≡ true
  ends i h = grows lo (step * i) w (grind arith)

  cuts-Tiles :
      (k i : ℕ)
      → suc k + i ≡ n
      → Chain (cut i) hi (cuts lo hi step n (suc k) i (cut i))
        × (length (cuts lo hi step n (suc k) i (cut i)) ≡ suc k)
  unfolding cuts
  cuts-Tiles zero i h =
      rw (cuts, last_cut lo hi step n i (omega (arith, h)), ends i (omega (arith, h)))
        ((refl, ends i (omega (arith, h)), refl), refl)
  cuts-Tiles (suc k) i h =
      let rest = cuts-Tiles k (suc i) (omega arith) in
      rw (cuts, next_cut-exact i (omega (arith, h)), rises i)
        ((refl, rises i, rest.0), ap suc rest.1)

-- When the width of the domain fits into i64, its segments are its partition: they are not empty and follow
-- each other from its lower end to its upper end, and they are as many as wanted, or as there are keys if
-- those are fewer.
pub split_range-Tiles :
    (lo : ℤ) (w n : ℕ)
    → IsInt64 lo
    → IsInt64 (lo +ℤ pos w)
    → 0 < w
    → w < 2 ^ 63
    → 0 < n
    → Chain lo (lo +ℤ pos w) (split_range lo (lo +ℤ pos w) n)
      × (length (split_range lo (lo +ℤ pos w) n) ≡ min n w)
unfolding split_range
split_range-Tiles lo w n lo_fits hi_fits wide narrow some =
    rw (split_range, rises_from lo w wide, positive n some, span_of-exact lo w narrow)
      (rw count (tiles (min n w) (omega arith) (omega arith)))
  where
    count : pieces n w ≡ min n w
    count = omega arith

    tiles :
        (m : ℕ)
        → 0 < m
        → m ≤ w
        → Chain lo (lo +ℤ pos w) (cuts lo (lo +ℤ pos w) (w / m) m m 0 lo)
          × (length (cuts lo (lo +ℤ pos w) (w / m) m m 0 lo) ≡ m)
    tiles zero h le = absurd (omega arith)
    tiles (suc k) h le =
        subst
          (λ (z : ℤ).
            Chain z (lo +ℤ pos w) (cuts lo (lo +ℤ pos w) (w / suc k) (suc k) (suc k) 0 z)
            × (length (cuts lo (lo +ℤ pos w) (w / suc k) (suc k) (suc k) 0 z) ≡ suc k))
          (from_start lo (w / suc k))
          (cuts-Tiles lo w (w / suc k) (suc k) lo_fits hi_fits narrow (div_pos w (suc k) h le)
            (div_le w (suc k) h) k 0 (omega arith))

    positive : (n : ℕ) → 0 < n → (n == 0) ≡ false
    positive n h = ground arith
