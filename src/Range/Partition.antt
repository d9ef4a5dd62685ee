-- ===== src/Range/Partition.antt =====
-- The ranges of a plan and `locate`: `RangePlan` of dbcli/src/delta_diff/bucket_diff.rs.
use hepta_dbcli.Prelude.{ℕ, ◌+◌, ◌-◌, ◌≤◌, ◌<◌, some, ◌≡◌, sym, ◌∙◌, arith}
use mathlib.Core.Path.{subst}
use hepta_dbcli.Prelude.Int.{ℤ, pos, ◌+ℤ◌, ◌≤ℤ◌, int_laws}
use hepta_dbcli.Range.Offsets.{
  offset, bucket_of, offset_last, bucket_of_bounds, bucket_of-lt, bucket_of_unique,
}
use hepta_dbcli.Range.{RangePlan, range, locate}
use hepta_dbcli.Range.Valid.{
  span, IsValid, size, wide, key_at, size_pos, wide_lt, span_split, grows, range_lem, locate_lem,
  key-of-offset, last_key, offset-of-key, first_key, range-some-lt, ends_of_some,
}

-- The range of bucket `b` is there and holds the key `k`.
abbrev Holds : RangePlan → ℕ → ℤ → Type 0
Holds p b k = (a z : ℤ) × (range p b ≡ some (a, z)) × (a ≤ℤ k) × (k ≤ℤ z)

abbrev pub IsBucketOf : RangePlan → ℤ → ℕ → Type 0
IsBucketOf p k b = (locate p k ≡ some b) × (b < p.n) × Holds p b k × ((c : ℕ) → Holds p c k → c ≡ b)

module _ {p : RangePlan} (v : IsValid p) where
  range-Holds :
      (b o : ℕ)
      → b < p.n
      → offset (size p) (wide p) b ≤ o
      → o < offset (size p) (wide p) (b + 1)
      → Holds p b (key_at p o)
  range-Holds b o h lo hi = (
    key_at p (offset (size p) (wide p) b),
    key_at p (offset (size p) (wide p) (b + 1) - 1),
    range_lem v b h,
    omega int_laws,
    omega int_laws,
  )

  Holds-inv :
      (b o : ℕ)
      → Holds p b (key_at p o)
      → (offset (size p) (wide p) b ≤ o) × (o < offset (size p) (wide p) (b + 1))
  Holds-inv b o (a, z, e, from, to) =
      let h = range-some-lt p b e in
      let (first, last) = ends_of_some (sym (range_lem v b h) ∙ e) in
      (
        offset-of-key v _ _ (rw (← first) at from),
        (let g = grows v b in let t = offset-of-key v _ _ (rw (← last) at to) in omega arith),
      )

  bucket_at : (o : ℕ) → o < span p → (b : ℕ) × IsBucketOf p (key_at p o) b
  bucket_at o h =
      let b = bucket_of (size p) (wide p) o in
      let inside = bucket_of_bounds (size p) (wide p) o (size_pos v) in
      let below : b < p.n =
        bucket_of-lt (size p) (wide p) p.n o (size_pos v) (omega (arith, wide_lt v))
          (omega (arith, span_split v)) in
      (
        b,
        (
          locate_lem v o h,
          below,
          range-Holds b o below inside.0 inside.1,
          λ c held.
              let at = Holds-inv c o held in
              sym (bucket_of_unique (size p) (wide p) c o (size_pos v) at.0 at.1),
        ),
      )

  next_start :
      (b : ℕ) (a' z' : ℤ)
      → range p (b + 1) ≡ some (a', z')
      → a' ≡ key_at p (offset (size p) (wide p) (b + 1) - 1) +ℤ pos 1
  next_start b a' z' e =
      let h = range-some-lt p (b + 1) e in
      let (first, last) = ends_of_some (sym (range_lem v (b + 1) h) ∙ e) in
      let g = grows v b in rw (← first) (omega int_laws)

  last_end : (b : ℕ) → b + 1 ≡ p.n → key_at p (offset (size p) (wide p) (b + 1) - 1) ≡ p.hi
  last_end b e =
      let whole : offset (size p) (wide p) (b + 1) ≡ span p =
        rw e (offset_last (size p) (wide p) p.n (omega (arith, wide_lt v)) ∙ span_split v) in
      rw whole (last_key v)

abbrev pub Tiles : RangePlan → ℕ → Type 0
Tiles p b =
    (a z : ℤ) × (range p b ≡ some (a, z))
    × (a ≤ℤ z)
    × (b ≡ 0 → a ≡ p.lo)
    × (b + 1 ≡ p.n → z ≡ p.hi)
    × ((a' z' : ℤ) → range p (b + 1) ≡ some (a', z') → a' ≡ z +ℤ pos 1)

-- Every range of a valid plan exists, is not empty and lies in the domain; the first starts at
-- the domain's start, each next one a key behind the one before it, and the last ends at its end.
pub range-Tiles : (p : RangePlan) (b : ℕ) → IsValid p → b < p.n → Tiles p b
range-Tiles p b v h = (
  key_at p (offset (size p) (wide p) b),
  key_at p (offset (size p) (wide p) (b + 1) - 1),
  range_lem v b h,
  omega (int_laws, grows v b),
  (λ e. rw e (first_key p.lo (size p) (wide p))),
  last_end v b,
  next_start v b,
)

-- A key of the domain is located in a bucket of the plan, the range of that bucket holds the key,
-- and no other range does.
pub locate-range :
    (p : RangePlan) (k : ℤ) → IsValid p → p.lo ≤ℤ k → k ≤ℤ p.hi → (b : ℕ) × IsBucketOf p k b
locate-range p k v from to =
    let (o, e, h) = key-of-offset v k from to in
    subst (λ (j : ℤ). (b : ℕ) × IsBucketOf p j b) e (bucket_at v o h)
