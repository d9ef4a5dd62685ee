-- ===== src/Bucket/Examples.antt =====
-- A left side with one row more of one hash, and a hash of its own.
use hepta_dbcli.Prelude.Sort.{count_if}
use hepta_dbcli.Prelude.{◌≤◌, ◌<◌, ◌↔◌, ◌≢◌, ◌==◌, some, List, [], ◌∷◌, ◌≡◌, refl}
use hepta_dbcli.Prelude.Int.{pos}
use hepta_dbcli.Text.{Text, codes}
use hepta_dbcli.Report.{string, integer, Row, DiffRow}
use hepta_dbcli.Bucket.{multiset_diff}
use hepta_dbcli.Bucket.Checksum.{ChecksumTuple, BucketMap, tuple_at, maps_to_diff_buckets}
use hepta_dbcli.Bucket.Checksum.Merged.{Sums, merge_chunk_map-Sums}
use hepta_dbcli.Bucket.Checksum.Differing.{maps_to_diff_buckets-lists}
use hepta_dbcli.Bucket.Hashes.{reported}
use hepta_dbcli.Bucket.Ascii.{AsciiHashes}
use hepta_dbcli.Bucket.Multiset.{status_in, verdict, multiset_diff-status_in}

abbrev left_hashes : List Row
left_hashes =
    (string (codes "ab") ∷ integer (pos 2) ∷ [])
    ∷ (string (codes "cd") ∷ string (codes " 1 ") ∷ [])
    ∷ []

abbrev right_hashes : List Row
right_hashes = (string (codes "ab") ∷ integer (pos 1) ∷ []) ∷ []

left_hashes-AsciiHashes : AsciiHashes left_hashes
left_hashes-AsciiHashes = ((refl, (refl, tt)), ((refl, (refl, tt)), tt))

multiset_diff-status_in_example :
    (out : List DiffRow) × (multiset_diff left_hashes right_hashes ≡ some out)
    × ((h : Text)
        → status_in h out ≡ verdict (reported 0 left_hashes h) (reported 0 right_hashes h))
multiset_diff-status_in_example =
    multiset_diff-status_in left_hashes right_hashes left_hashes-AsciiHashes
      ((refl, (refl, tt)), tt)

abbrev one_tuple : ChecksumTuple
one_tuple = record { count = 2; s1 = 18446744073709551615; s2 = 0; s3 = 5; s4 = 6 }

abbrev other_tuple : ChecksumTuple
other_tuple = record { count = 3; s1 = 7; s2 = 0; s3 = 5; s4 = 6 }

-- Tuples of two buckets, merged into the bucket 4.
abbrev two_tuples : BucketMap
two_tuples = (0, one_tuple) ∷ (1, other_tuple) ∷ []

merge_chunk_map-Sums_example :
    Sums (λ t. t.count) [] two_tuples 4 4
    × Sums (λ t. t.s1) [] two_tuples 4 4
    × Sums (λ t. t.s2) [] two_tuples 4 4
    × Sums (λ t. t.s3) [] two_tuples 4 4
    × Sums (λ t. t.s4) [] two_tuples 4 4
merge_chunk_map-Sums_example = merge_chunk_map-Sums [] two_tuples 4 4

maps_to_diff_buckets-lists_example :
    (count_if (λ x. x == 4) (maps_to_diff_buckets two_tuples ((4, other_tuple) ∷ []) 8) ≤ 1)
    × ((0 < count_if (λ x. x == 4) (maps_to_diff_buckets two_tuples ((4, other_tuple) ∷ []) 8))
        ↔ ((4 < 8) × (tuple_at two_tuples 4 ≢ tuple_at ((4, other_tuple) ∷ []) 4)))
maps_to_diff_buckets-lists_example =
    maps_to_diff_buckets-lists two_tuples ((4, other_tuple) ∷ []) 8 4
