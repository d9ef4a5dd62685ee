-- ===== src/Bucket/Checksum/Differing.antt =====
-- The buckets that are compared further: `maps_to_diff_buckets` of dbcli/src/delta_diff/bucket_diff.rs.
use hepta_dbcli.Prelude.{
  ℕ, zero, suc, ◌+◌, ltb, leb, ◌==◌, Bool, true, false, not, ◌&&◌, if◌then◌else◌, ◌≡◌, refl, sym,
  ap, ◌∙◌, arith, Bool-cases, inl, inr, ◌≤◌, ◌<◌, ◌≢◌, ◌↔◌, eq_self, ==_iff,
}
use hepta_dbcli.Prelude.Sort.{count_if}
use hepta_dbcli.Bucket.Checksum.{
  ChecksumTuple, tuples_equal, BucketMap, tuple_at, filter_range, maps_to_diff_buckets,
}
use hepta_dbcli.Bucket.Checksum.Merged.{same_bucket}

module _ (keep : ℕ → Bool) where
  count-filter_range :
      (s n b : ℕ)
      → count_if (λ x. x == b) (filter_range keep s n)
        ≡ (if leb s b && ltb b (s + n) && keep b then 1 else 0)
  unfolding filter_range
  count-filter_range s zero b = ground arith
  count-filter_range s (suc n) b =
      let later = count-filter_range (suc s) n b in
      elim (Bool-cases (keep s)) [
        | inl k ↦ rw k (step_kept k later)
        | inr d ↦ rw d (step_dropped d later)
      ]
    where
      at : (s == b) ≡ true → keep b ≡ keep s
      at e = ap keep (sym (same_bucket.eq_path s b e))

      step_kept :
          keep s ≡ true
          → {c : ℕ} → c ≡ (if leb (suc s) b && ltb b (suc s + n) && keep b then 1 else 0)
          → (if s == b then suc c else c)
            ≡ (if leb s b && ltb b (s + suc n) && keep b then 1 else 0)
      step_kept k {c} e = elim (Bool-cases (s == b)) [
        | inl h ↦ let same = at h ∙ k in ground arith
        | inr h ↦ ground arith
      ]

      step_dropped :
          keep s ≡ false
          → {c : ℕ} → c ≡ (if leb (suc s) b && ltb b (suc s + n) && keep b then 1 else 0)
          → c ≡ (if leb s b && ltb b (s + suc n) && keep b then 1 else 0)
      step_dropped k {c} e = elim (Bool-cases (s == b)) [
        | inl h ↦ let same = at h ∙ k in ground arith
        | inr h ↦ ground arith
      ]

count-maps_to_diff_buckets :
    (l r : BucketMap) (n b : ℕ)
    → count_if (λ x. x == b) (maps_to_diff_buckets l r n)
      ≡ (if ltb b n && not (tuples_equal (tuple_at l b) (tuple_at r b)) then 1 else 0)
unfolding maps_to_diff_buckets
count-maps_to_diff_buckets l r n b =
    count-filter_range (λ c. not (tuples_equal (tuple_at l c) (tuple_at r c))) 0 n b
    ∙ ap (λ (t : Bool). if t && not (tuples_equal (tuple_at l b) (tuple_at r b)) then 1 else 0)
        below
  where
    below : (leb 0 b && ltb b (0 + n)) ≡ ltb b n
    below = ground arith

five :
    (a b c d e : Bool)
    → (a && b && c && d && e) ≡ true
    → (a ≡ true) × (b ≡ true) × (c ≡ true) × (d ≡ true) × (e ≡ true)
five true true true true e h = (refl, refl, refl, refl, h)
five true true true false e h = cc
five true true false d e h = cc
five true false c d e h = cc
five false b c d e h = cc

tuples_equal_refl : (t : ChecksumTuple) → tuples_equal t t ≡ true
tuples_equal_refl t =
    rw (eq_self t.count, eq_self t.s1, eq_self t.s2, eq_self t.s3, eq_self t.s4) refl

tuples_equal-path : (t u : ChecksumTuple) → tuples_equal t u ≡ true → t ≡ u
tuples_equal-path t u h =
    let r =
      five (t.count == u.count) (t.s1 == u.s1) (t.s2 == u.s2) (t.s3 == u.s3) (t.s4 == u.s4) h in
    λ i. record {
      count = (==_iff t.count u.count).0 r.0 i;
      s1 = (==_iff t.s1 u.s1).0 r.1 i;
      s2 = (==_iff t.s2 u.s2).0 r.2 i;
      s3 = (==_iff t.s3 u.s3).0 r.3 i;
      s4 = (==_iff t.s4 u.s4).0 r.4 i;
    }

-- A bucket is listed once at most, and it is listed exactly when it is below `n` and the tuples that the two
-- sides have for it, of zeros where there is none, are not the same.
pub maps_to_diff_buckets-lists :
    (l r : BucketMap) (n b : ℕ)
    → (count_if (λ x. x == b) (maps_to_diff_buckets l r n) ≤ 1)
      × ((0 < count_if (λ x. x == b) (maps_to_diff_buckets l r n))
          ↔ ((b < n) × (tuple_at l b ≢ tuple_at r b)))
maps_to_diff_buckets-lists l r n b =
    rw (count-maps_to_diff_buckets l r n b)
      (answer (tuples_equal (tuple_at l b) (tuple_at r b)) refl)
  where
    answer :
        (same : Bool)
        → tuples_equal (tuple_at l b) (tuple_at r b) ≡ same
        → ((if ltb b n && not same then 1 else 0) ≤ 1)
          × ((0 < (if ltb b n && not same then 1 else 0))
              ↔ ((b < n) × (tuple_at l b ≢ tuple_at r b)))
    answer true e = (
      ground arith,
      (
        (λ h. absurd (ground arith)),
        (λ h. absurd (h.1 (tuples_equal-path (tuple_at l b) (tuple_at r b) e))),
      ),
    )
    answer false e = (
      ground arith,
      (
        (λ h. (
          ground arith,
          λ same. cc (
              sym e
              ∙ sym (ap (λ t. tuples_equal t (tuple_at r b)) (sym same))
              ∙ tuples_equal_refl (tuple_at r b)),
        )),
        (λ h. let k = h.0 in ground arith),
      ),
    )
