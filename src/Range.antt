-- ===== src/Range.antt =====
-- `RangePlan` of dbcli/src/delta_diff/bucket_diff.rs: the partition of an integer key domain into
-- the contiguous ranges that bucketdiff pulls one by one.
mod Offsets
pub mod Valid
pub mod Partition
pub mod New
mod Examples
use hepta_dbcli.Prelude.{
  ℕ, ◌+◌, ◌-◌, ◌*◌, ◌/◌, ◌%◌, ◌^◌, min, Bool, true, false, ◌&&◌, ◌||◌, Option, none, some, ltb, leb,
  ◌==◌, if◌then◌else◌,
}
use hepta_dbcli.Prelude.Int.{ℤ, pos, negsuc, pos_part, neg_part, sub_ℕ, ◌+ℤ◌, ◌-ℤ◌, ◌*ℤ◌, ltb_ℤ}

-- The bounds of the machine types. `i128` holds every intermediate value and is read as ℤ.
abbrev pub u64_mod : ℕ
u64_mod = 2 ^ 64

abbrev pub i64_half : ℕ
i64_half = 2 ^ 63

-- Rust's `/` and `%` on signed numbers round towards zero.
unfoldable pub div_ℤ : ℤ → ℕ → ℤ
div_ℤ (pos a) n = pos (a / n)
div_ℤ (negsuc a) n = sub_ℕ 0 ((a + 1) / n)

unfoldable pub mod_ℤ : ℤ → ℕ → ℤ
mod_ℤ (pos a) n = pos (a % n)
mod_ℤ (negsuc a) n = sub_ℕ 0 ((a + 1) % n)

-- `u64::try_from` and `i64::try_from`.
unfoldable pub try_u64 : ℤ → Option ℕ
try_u64 (pos a) = if ltb a u64_mod then some a else none
try_u64 (negsuc a) = none

unfoldable pub try_i64 : ℤ → Option ℤ
try_i64 (pos a) = if ltb a i64_half then some (pos a) else none
try_i64 (negsuc a) = if ltb a i64_half then some (negsuc a) else none

abbrev pub unwrap_or : Option ℕ → ℕ → ℕ
unwrap_or none d = d
unwrap_or (some a) d = a

-- The key column's name plays no part in the partition and is left to the predicate's text.
pub record RangePlan : Type 0 where
  pub lo : ℤ
  pub hi : ℤ
  pub n : ℕ

-- `i128::from(max) - i128::from(min) + 1`
abbrev pub domain : ℤ → ℤ → ℤ
domain lo hi = hi -ℤ lo +ℤ pos 1

-- `none` is a failed assertion.
unfoldable pub new : ℤ → ℤ → ℕ → Option RangePlan
unfolding try_u64
new lo hi n =
    if ltb_ℤ hi lo
    then none
    else if n == 0
    then none
    else some
        (record { lo = lo; hi = hi; n = min (unwrap_or (try_u64 (domain lo hi)) (u64_mod - 1)) n })

abbrev seg : RangePlan → ℤ
seg p = div_ℤ (domain p.lo p.hi) p.n

abbrev rem : RangePlan → ℤ
rem p = mod_ℤ (domain p.lo p.hi) p.n

unfoldable pub seg_len : RangePlan → ℕ
unfolding try_u64 div_ℤ
seg_len p = unwrap_or (try_u64 (seg p)) (u64_mod - 1)

unfoldable pub remainder : RangePlan → ℕ
unfolding try_u64 mod_ℤ
remainder p = unwrap_or (try_u64 (rem p)) 0

abbrev both : Option ℤ → Option ℤ → Option (ℤ × ℤ)
both none _ = none
both (some a) none = none
both (some a) (some b) = some (a, b)

-- `none`: bucket `b` does not exist, or an end does not fit `i64`.
unfoldable pub range : RangePlan → ℕ → Option (ℤ × ℤ)
unfolding try_u64 try_i64 div_ℤ mod_ℤ
range p b =
    if ltb b p.n
    then (let width = if ltb b (pos_part (rem p)) then seg p +ℤ pos 1 else seg p in
        let start = p.lo +ℤ pos b *ℤ seg p +ℤ pos (min b (unwrap_or (try_u64 (rem p)) 0)) in
        both (try_i64 start) (try_i64 (start +ℤ width -ℤ pos 1)))
    else none

-- Division by a signed number that is not negative here; `none` is division by zero.
checked_div : ℤ → ℤ → Option ℤ
checked_div a (pos d) = if d == 0 then none else some (div_ℤ a d)
checked_div a (negsuc d) = some (pos 0 -ℤ div_ℤ a (d + 1))

abbrev or_bucket : Option ℤ → ℕ → ℕ → Option ℕ
or_bucket none base d = none
or_bucket (some q) base d = some (base + unwrap_or (try_u64 q) d)

-- `none` is a division by zero: no buckets, or a key past the wide ones when `seg` is 0.
unfoldable pub locate : RangePlan → ℤ → Option ℕ
unfolding try_u64 checked_div div_ℤ mod_ℤ
locate p k =
    if p.n == 0
    then none
    else (let wide = seg p +ℤ pos 1 in
        let off = k -ℤ p.lo in
        let rem64 = unwrap_or (try_u64 (rem p)) 0 in
        if ltb_ℤ off (rem p *ℤ wide)
        then or_bucket (checked_div off wide) 0 rem64
        else or_bucket (checked_div (off -ℤ rem p *ℤ wide) (seg p)) rem64 0)
