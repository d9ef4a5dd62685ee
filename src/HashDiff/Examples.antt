-- ===== src/HashDiff/Examples.antt =====
-- Small domains and the ends of i64, and the theorems at concrete inputs.
use hepta_dbcli.Prelude.{min, [], ◌∷◌, length, some, none, ◌≡◌, refl, arith, inl}
use hepta_dbcli.Prelude.Int.{pos, negsuc, ◌+ℤ◌}
use hepta_dbcli.HashDiff.{split_range, key_domain}
use hepta_dbcli.HashDiff.Segments.{Covers, Chain, split_range-Covers}
use hepta_dbcli.HashDiff.Tiles.{split_range-Tiles}
use hepta_dbcli.HashDiff.Domain.{InDomain, key_domain-InDomain}

uneven : split_range (negsuc 1) (pos 8) 3 ≡ (negsuc 1, pos 1) ∷ (pos 1, pos 4) ∷ (pos 4, pos 8) ∷ []
unfolding split_range
uneven = refl

-- The largest i64 as a key: its successor wraps, and nothing is left of the domain.
largest_key :
    key_domain (some (pos 0, pos 9223372036854775807)) none
    ≡ some (pos 0, negsuc 9223372036854775807)
unfolding key_domain
largest_key = refl

nothing_compared : split_range (pos 0) (negsuc 9223372036854775807) 8 ≡ []
unfolding split_range
nothing_compared = refl

-- A width beyond i64 wraps: two segments are wanted, and the one there is is the whole domain.
not_split :
    split_range (negsuc 4999999999999999999) (pos 5000000000000000000) 2
    ≡ (negsuc 4999999999999999999, pos 5000000000000000000) ∷ []
unfolding split_range
not_split = refl

split_range-Covers_example : Covers (negsuc 1) (pos 8) (split_range (negsuc 1) (pos 8) 3)
split_range-Covers_example = split_range-Covers (negsuc 1) (pos 8) 3 refl (omega arith)

split_range-Tiles_example :
    Chain (negsuc 1) (negsuc 1 +ℤ pos 10) (split_range (negsuc 1) (negsuc 1 +ℤ pos 10) 3)
    × (length (split_range (negsuc 1) (negsuc 1 +ℤ pos 10) 3) ≡ min 3 10)
unfolding ◌+ℤ◌
split_range-Tiles_example =
    split_range-Tiles (negsuc 1) 10 3 (omega arith, omega arith) (omega arith, omega arith)
      (omega arith) (omega arith) (omega arith)

key_domain-InDomain_example :
    InDomain (pos 7) (key_domain (some (negsuc 1, pos 7)) (some (pos 3, pos 5)))
unfolding ◌+ℤ◌
key_domain-InDomain_example =
    key_domain-InDomain (some (negsuc 1, pos 7)) (some (pos 3, pos 5)) (pos 7)
      (omega arith, omega arith) (omega arith, omega arith) (inl (omega arith, omega arith))
