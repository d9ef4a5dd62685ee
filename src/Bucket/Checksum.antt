-- ===== src/Bucket/Checksum.antt =====
-- Checksum tuples of buckets: `ChecksumTuple` of dbcli/src/delta_diff/checksum.rs, and
-- `merge_chunk_map` and `maps_to_diff_buckets` of bucket_diff.rs.
pub mod Merged
pub mod Differing
use hepta_dbcli.Prelude.{
  ℕ, zero, suc, ◌+◌, ◌%◌, ◌^◌, ltb, leb, ◌==◌, Bool, true, false, not, ◌&&◌, List, [], ◌∷◌, Option,
  none, some, if◌then◌else◌, ◌≡◌, refl, sym, ap, ◌∙◌, arith, Bool-cases, if-true, if-false, inl,
  inr, ◌≤◌, ◌<◌, ◌≢◌, ◌↔◌, eq_self, ==_iff,
}
use hepta_dbcli.Prelude.Sort.{count_if}
use hepta_dbcli.Prelude.Assoc.{find, upsert, IsEqTest, IsEqTest-IsEquivTest, find-upsert}

-- `u64` additions of the slices wrap; the count is a number of rows, whose addition wraps in a
-- release build too.
abbrev pub wrapping_add : ℕ → ℕ → ℕ
wrapping_add a b = (a + b) % 2 ^ 64

pub record ChecksumTuple : Type 0 where
  pub count : ℕ
  pub s1 : ℕ
  pub s2 : ℕ
  pub s3 : ℕ
  pub s4 : ℕ

-- `ChecksumTuple::zero`
abbrev pub no_rows : ChecksumTuple
no_rows = record { count = 0; s1 = 0; s2 = 0; s3 = 0; s4 = 0 }

unfoldable pub add_tuple : ChecksumTuple → ChecksumTuple → ChecksumTuple
add_tuple a b = record {
  count = wrapping_add a.count b.count;
  s1 = wrapping_add a.s1 b.s1;
  s2 = wrapping_add a.s2 b.s2;
  s3 = wrapping_add a.s3 b.s3;
  s4 = wrapping_add a.s4 b.s4;
}

-- `==` on tuples
abbrev pub tuples_equal : ChecksumTuple → ChecksumTuple → Bool
tuples_equal a b =
    a.count == b.count && a.s1 == b.s1 && a.s2 == b.s2 && a.s3 == b.s3 && a.s4 == b.s4

-- A BTreeMap, as a list of pairs; a list may be in another order, or have a key twice.
abbrev pub BucketMap : Type 0
BucketMap = List (ℕ × ChecksumTuple)

abbrev pub or_no_rows : Option ChecksumTuple → ChecksumTuple
or_no_rows none = no_rows
or_no_rows (some t) = t

-- `get(b).copied().unwrap_or_else(ChecksumTuple::zero)`
abbrev pub tuple_at : BucketMap → ℕ → ChecksumTuple
unfolding find
tuple_at m b = or_no_rows (find ◌==◌ m b)

unfoldable pub merge_chunk_map : BucketMap → BucketMap → ℕ → BucketMap
unfolding upsert add_tuple
merge_chunk_map out [] g = out
merge_chunk_map out ((b, t) ∷ chunk) g =
    merge_chunk_map (upsert ◌==◌ (λ o. add_tuple (or_no_rows o) t) g out) chunk g

-- `(b..b + n).filter(keep)`
unfoldable filter_range : (ℕ → Bool) → ℕ → ℕ → List ℕ
filter_range keep b zero = []
filter_range keep b (suc n) =
    let rest = filter_range keep (suc b) n in if keep b then b ∷ rest else rest

-- The buckets of `0..n` whose tuples differ.
unfoldable pub maps_to_diff_buckets : BucketMap → BucketMap → ℕ → List ℕ
unfolding filter_range tuple_at
maps_to_diff_buckets l r n =
    filter_range (λ b. not (tuples_equal (tuple_at l b) (tuple_at r b))) 0 n
