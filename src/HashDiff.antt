-- ===== src/HashDiff.antt =====
-- The key domain and its segments: `split_range` and the domain of dbcli/src/delta_diff/hash_diff.rs. Its arithmetic on i64
-- and u128 wraps, as in a release build.
pub mod Segments
pub mod Tiles
pub mod Domain
mod Examples
use hepta_dbcli.Prelude.{
  ℕ, zero, suc, ◌+◌, ◌-◌, ◌*◌, ◌/◌, ◌%◌, ◌^◌, ◌==◌, min, max, Bool, true, false, ◌||◌, not, List,
  [], ◌∷◌, Option, none, some, ltb, if◌then◌else◌,
}
use hepta_dbcli.Prelude.Int.{ℤ, pos, negsuc, ◌+ℤ◌, ◌-ℤ◌, ltb_ℤ}

-- The bits of a signed number, as an unsigned one.
abbrev pub bits_of : ℤ → ℕ → ℕ
bits_of (pos a) modulus = a % modulus
bits_of (negsuc a) modulus = modulus - 1 - a % modulus

-- `as i64` of an unsigned number
unfoldable pub as_i64 : ℕ → ℤ
as_i64 a = let r = a % 2 ^ 64 in if ltb r (2 ^ 63) then pos r else negsuc (2 ^ 64 - 1 - r)

-- Addition and subtraction of i64.
unfoldable pub add_i64 : ℤ → ℤ → ℤ
unfolding as_i64 ◌+ℤ◌
add_i64 a b = as_i64 (bits_of (a +ℤ b) (2 ^ 64))

unfoldable pub sub_i64 : ℤ → ℤ → ℤ
unfolding as_i64 ◌-ℤ◌
sub_i64 a b = as_i64 (bits_of (a -ℤ b) (2 ^ 64))

-- The smallest and the largest key of a side, if it has rows, to the domain of both: half open, so that one
-- is added to the largest key.
abbrev pub min_ℤ : ℤ → ℤ → ℤ
min_ℤ a b = if ltb_ℤ b a then b else a

abbrev pub max_ℤ : ℤ → ℤ → ℤ
max_ℤ a b = if ltb_ℤ b a then a else b

abbrev pub joint_range : Option (ℤ × ℤ) → Option (ℤ × ℤ) → Option (ℤ × ℤ)
joint_range (some l) (some r) = some (min_ℤ l.0 r.0, max_ℤ l.1 r.1)
joint_range (some l) none = some l
joint_range none (some r) = some r
joint_range none none = none

unfoldable pub key_domain : Option (ℤ × ℤ) → Option (ℤ × ℤ) → Option (ℤ × ℤ)
unfolding add_i64
key_domain l r = elim (joint_range l r) [ none ↦ none | some k ↦ some (k.0, add_i64 k.1 (pos 1)) ]

unfoldable pub next_cut : ℤ → ℤ → ℕ → ℕ → ℕ → ℤ
unfolding add_i64
next_cut lo hi step n i = if i == n - 1 then hi else add_i64 lo (as_i64 (step * (i + 1) % 2 ^ 128))

-- The loop, with `k` turns left.
unfoldable pub cuts : ℤ → ℤ → ℕ → ℕ → ℕ → ℕ → ℤ → List (ℤ × ℤ)
unfolding next_cut
cuts lo hi step n zero i cur = []
cuts lo hi step n (suc k) i cur =
    let next = next_cut lo hi step n i in
    let pushed = cuts lo hi step n k (suc i) next in
    let rest = cuts lo hi step n k (suc i) cur in
    if ltb_ℤ cur next then (cur, next) ∷ pushed else rest

abbrev pub span_of : ℤ → ℤ → ℕ
unfolding sub_i64
span_of lo hi = bits_of (sub_i64 hi lo) (2 ^ 128)

-- `n.min(span as usize).max(1)`
abbrev pub pieces : ℕ → ℕ → ℕ
pieces n span = max (min n (span % 2 ^ 64)) 1

unfoldable pub split_range : ℤ → ℤ → ℕ → List (ℤ × ℤ)
unfolding span_of cuts
split_range lo hi n =
    if not (ltb_ℤ lo hi) || n == 0
    then []
    else let span = span_of lo hi in
      let count = pieces n span in cuts lo hi (span / count) count count 0 lo
