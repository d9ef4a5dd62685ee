-- ===== src/Bucket/Checksum/Merged.antt =====
-- What a merge adds to a bucket: `merge_chunk_map` of dbcli/src/delta_diff/bucket_diff.rs.
use hepta_dbcli.Prelude.{
  ℕ, ◌+◌, ◌%◌, ◌^◌, ◌==◌, Bool, true, false, [], ◌∷◌, Option, if◌then◌else◌, ◌≡◌, refl, ap, ◌∙◌,
  arith, Bool-cases, if-true, if-false, inl, inr,
}
use hepta_dbcli.Prelude.Assoc.{find, upsert, IsEqTest, IsEqTest-IsEquivTest, find-upsert}
use hepta_dbcli.Bucket.Checksum.{
  ChecksumTuple, add_tuple, BucketMap, or_no_rows, tuple_at, merge_chunk_map,
}

-- The tuples of a chunk, added up onto `t`.
abbrev pub add_all : ChecksumTuple → BucketMap → ChecksumTuple
add_all t [] = t
add_all t ((b, u) ∷ chunk) = add_all (add_tuple t u) chunk

pub same_bucket : IsEqTest ◌==◌
same_bucket = record { eq_refl = λ k. ground arith; eq_path = λ k j e. ground arith }

pub tuple_at-merge_chunk_map :
    (out chunk : BucketMap) (g b : ℕ)
    → tuple_at (merge_chunk_map out chunk g) b
      ≡ (if g == b then add_all (tuple_at out b) chunk else tuple_at out b)
unfolding merge_chunk_map tuple_at find
tuple_at-merge_chunk_map out [] g b = either (g == b)
  where
    either : (t : Bool) → tuple_at out b ≡ (if t then tuple_at out b else tuple_at out b)
    either true = refl
    either false = refl
tuple_at-merge_chunk_map out ((k, t) ∷ chunk) g b =
    tuple_at-merge_chunk_map (upsert ◌==◌ (λ o. add_tuple (or_no_rows o) t) g out) chunk g b
    ∙ elim (Bool-cases (g == b)) [
      | inl e ↦ rw e (
          ap (λ (o : Option ChecksumTuple). add_all (or_no_rows o) chunk)
            (find-upsert ◌==◌ (IsEqTest-IsEquivTest ◌==◌ same_bucket) add g b out ∙ if-true _ _ e))
      | inr e ↦ rw e (
          ap or_no_rows
            (find-upsert ◌==◌ (IsEqTest-IsEquivTest ◌==◌ same_bucket) add g b out ∙ if-false _ _ e))
    ]
  where
    add : Option ChecksumTuple → ChecksumTuple
    add o = add_tuple (or_no_rows o) t

module _ (field : ChecksumTuple → ℕ) where
  -- The sum of a field over a chunk, without a bound.
  abbrev pub sum_of : BucketMap → ℕ
  sum_of [] = 0
  sum_of ((b, u) ∷ chunk) = field u + sum_of chunk

  -- After a merge into the bucket `g` the field of the bucket `b` is, modulo 2 ^ 64, what it was, and for `g`
  -- the sum of the chunk more.
  abbrev pub Sums : BucketMap → BucketMap → ℕ → ℕ → Type 0
  unfolding merge_chunk_map
  Sums out chunk g b =
      field (tuple_at (merge_chunk_map out chunk g) b) % 2 ^ 64
      ≡ (field (tuple_at out b) + (if g == b then sum_of chunk else 0)) % 2 ^ 64

  module _
      (added : (t u : ChecksumTuple) → field (add_tuple t u) ≡ (field t + field u) % 2 ^ 64) where
    add_all-sum :
        (t : ChecksumTuple) (chunk : BucketMap)
        → field (add_all t chunk) % 2 ^ 64 ≡ (field t + sum_of chunk) % 2 ^ 64
    add_all-sum t [] = omega arith
    add_all-sum t ((b, u) ∷ chunk) = omega (arith, add_all-sum (add_tuple t u) chunk, added t u)

    merged :
        (out chunk : BucketMap) (g b : ℕ) (same : Bool)
        → field (if same then add_all (tuple_at out b) chunk else tuple_at out b) % 2 ^ 64
          ≡ (field (tuple_at out b) + (if same then sum_of chunk else 0)) % 2 ^ 64
    merged out chunk g b true = add_all-sum (tuple_at out b) chunk
    merged out chunk g b false = omega arith

    field-Sums : (out chunk : BucketMap) (g b : ℕ) → Sums out chunk g b
    unfolding Sums
    field-Sums out chunk g b =
        ap (λ (t : ChecksumTuple). field t % 2 ^ 64) (tuple_at-merge_chunk_map out chunk g b)
        ∙ merged out chunk g b (g == b)

-- A merge adds the count and each of the four slices of all tuples of a chunk, modulo 2 ^ 64, to those of
-- the one bucket that it merges into, and to no other bucket.
pub merge_chunk_map-Sums :
    (out chunk : BucketMap) (g b : ℕ)
    → Sums (λ t. t.count) out chunk g b
      × Sums (λ t. t.s1) out chunk g b
      × Sums (λ t. t.s2) out chunk g b
      × Sums (λ t. t.s3) out chunk g b
      × Sums (λ t. t.s4) out chunk g b
unfolding add_tuple
merge_chunk_map-Sums out chunk g b = (
  field-Sums (λ t. t.count) (λ t u. refl) out chunk g b,
  field-Sums (λ t. t.s1) (λ t u. refl) out chunk g b,
  field-Sums (λ t. t.s2) (λ t u. refl) out chunk g b,
  field-Sums (λ t. t.s3) (λ t u. refl) out chunk g b,
  field-Sums (λ t. t.s4) (λ t u. refl) out chunk g b,
)
