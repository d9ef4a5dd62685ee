-- ===== src/Range/New.antt =====
-- The constructor of a plan: `RangePlan::new` of dbcli/src/delta_diff/bucket_diff.rs.
use hepta_dbcli.Prelude.{ℕ, ◌-◌, ◌≤◌, ◌<◌, min, some, ◌≡◌, refl, arith}
use hepta_dbcli.Prelude.Int.{ℤ, pos, pos_part, ◌+ℤ◌, ◌-ℤ◌, ◌≤ℤ◌}
use hepta_dbcli.Range.{RangePlan, u64_mod, try_u64, domain, new, unwrap_or}
use hepta_dbcli.Range.Valid.{IsInt64, span, IsValid}

abbrev capacity : ℤ → ℕ
capacity d = unwrap_or (try_u64 d) (u64_mod - 1)

capacity_bounds :
    (d : ℕ) → 0 < d → (0 < capacity (pos d)) × (capacity (pos d) < u64_mod) × (capacity (pos d) ≤ d)
unfolding try_u64
capacity_bounds d h = ground arith

min-capacity : (d n : ℕ) → n < u64_mod → min (capacity (pos d)) n ≡ min d n
unfolding try_u64
min-capacity d n h = ground arith

domain_pos :
    (lo hi : ℤ)
    → lo ≤ℤ hi
    → (domain lo hi ≡ pos (pos_part (domain lo hi))) × (0 < pos_part (domain lo hi))
unfolding ◌+ℤ◌ ◌-ℤ◌
domain_pos lo hi h = (ground arith, ground arith)

new-eq-some :
    (lo hi : ℤ) (n : ℕ)
    → lo ≤ℤ hi
    → 0 < n
    → new lo hi n ≡ some (record { lo = lo; hi = hi; n = min (capacity (domain lo hi)) n })
unfolding new
new-eq-some lo hi n o h = ground arith

-- `new` accepts every ordered pair of `i64` bounds with a bucket count of at least 1, and the
-- plan is valid, keeps the bounds and has as many buckets as were asked for, or one for each key
-- if there are fewer keys.
pub new-IsValid :
    (lo hi : ℤ) (n : ℕ)
    → IsInt64 lo
    → IsInt64 hi
    → lo ≤ℤ hi
    → 0 < n
    → n < u64_mod
    → (p : RangePlan) × (new lo hi n ≡ some p)
      × IsValid p
      × (p.lo ≡ lo)
      × (p.hi ≡ hi)
      × (p.n ≡ min (span p) n)
new-IsValid lo hi n f g o h l =
    let (e, some_key) = domain_pos lo hi o in
    let (c, below, le_span) = capacity_bounds (pos_part (domain lo hi)) some_key in
    let all = min-capacity (pos_part (domain lo hi)) n l in
    let m = min (capacity (domain lo hi)) n in
    let p : RangePlan = record { lo = lo; hi = hi; n = m } in
    (
      p,
      new-eq-some lo hi n o h,
      record {
        ordered = o;
        lo_fits = f;
        hi_fits = g;
        some_bucket = rw e (omega arith);
        buckets_fit = omega arith;
        no_empty = rw e (omega arith);
      },
      refl,
      refl,
      rw e all,
    )
