-- ===== src/Range/Examples.antt =====
-- Runs of the plan on small domains, and the theorems at them.
use hepta_dbcli.Prelude.{ℕ, min, none, some, ◌≡◌, refl, arith}
use hepta_dbcli.Prelude.Int.{pos, negsuc, ◌+ℤ◌, ◌-ℤ◌, ◌*ℤ◌}
use hepta_dbcli.Range.{RangePlan, new, range, locate, seg_len, remainder}
use hepta_dbcli.Range.Partition.{IsBucketOf, Tiles, range-Tiles, locate-range}
use hepta_dbcli.Range.Valid.{span, IsValid}
use hepta_dbcli.Range.New.{new-IsValid}

-- The ten keys from -3 to 6 in four buckets.
abbrev ten : RangePlan
ten = record { lo = negsuc 2; hi = pos 6; n = 4 }

runs :
    (new (negsuc 2) (pos 6) 4 ≡ some ten)
    × (range ten 0 ≡ some (negsuc 2, negsuc 0))
    × (range ten 1 ≡ some (pos 0, pos 2))
    × (range ten 3 ≡ some (pos 5, pos 6))
    × (range ten 4 ≡ none)
    × (locate ten (pos 2) ≡ some 1)
    × (seg_len ten ≡ 2)
    × (remainder ten ≡ 2)
unfolding new range locate seg_len remainder ◌+ℤ◌ ◌-ℤ◌ ◌*ℤ◌
runs = (refl, refl, refl, refl, refl, refl, refl, refl)

ten-IsValid : IsValid ten
unfolding ◌+ℤ◌ ◌-ℤ◌
ten-IsValid = record {
  ordered = omega arith;
  lo_fits = omega arith;
  hi_fits = omega arith;
  some_bucket = omega arith;
  buckets_fit = omega arith;
  no_empty = omega arith;
}

range-Tiles_example : Tiles ten 1
range-Tiles_example = range-Tiles ten 1 ten-IsValid (omega arith)

locate-range_example : (b : ℕ) × IsBucketOf ten (negsuc 1) b
locate-range_example = locate-range ten (negsuc 1) ten-IsValid (omega arith) (omega arith)

new-IsValid_example :
    (p : RangePlan) × (new (negsuc 2) (pos 6) 40 ≡ some p)
    × IsValid p
    × (p.lo ≡ negsuc 2)
    × (p.hi ≡ pos 6)
    × (p.n ≡ min (span p) 40)
new-IsValid_example =
    new-IsValid (negsuc 2) (pos 6) 40 (omega arith) (omega arith) (omega arith) (omega arith)
      (omega arith)
