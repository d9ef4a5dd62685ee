-- ===== src/Range/Valid.antt =====
-- A valid plan, with its buckets and keys by their offsets from its lower bound: `RangePlan` of
-- dbcli/src/delta_diff/bucket_diff.rs.
use hepta_dbcli.Prelude.{
  ℕ, ◌+◌, ◌-◌, ◌*◌, ◌/◌, ◌%◌, ◌≤◌, ◌<◌, min, Option, some, ◌≡◌, refl, arith, ltb, lt→ltb,
  if◌then◌else◌, Bool, true, false, ◌==◌,
}
use native.Mathlib.Nat.{div-add-mod, mod-lt, div-le_self, le-div_iff_mul-le}
use hepta_dbcli.Prelude.Int.{
  ℤ, pos, negsuc, pos_part, neg_part, sub_ℕ, ◌+ℤ◌, ◌-ℤ◌, ◌*ℤ◌, ◌≤ℤ◌, int_laws,
}
use hepta_dbcli.Range.Offsets.{offset, bucket_of, offset_next, offset_last, offset_mono}
use hepta_dbcli.Range.{RangePlan, u64_mod, i64_half, try_u64, try_i64, domain, range, locate}

-- Both bounds are `i64`s, and no more buckets than keys.
abbrev pub IsInt64 : ℤ → Type 0
IsInt64 k = (pos_part k < i64_half) × (neg_part k ≤ i64_half)

abbrev pub span : RangePlan → ℕ
span p = pos_part (domain p.lo p.hi)

pub record IsValid (p : RangePlan) : Type 0 where
  pub ordered : p.lo ≤ℤ p.hi
  pub lo_fits : IsInt64 p.lo
  pub hi_fits : IsInt64 p.hi
  pub some_bucket : 0 < p.n
  pub buckets_fit : p.n < u64_mod
  pub no_empty : p.n ≤ span p

abbrev pub size : RangePlan → ℕ
size p = span p / p.n

abbrev pub wide : RangePlan → ℕ
wide p = span p % p.n

-- The key at offset `o`.
abbrev pub key_at : RangePlan → ℕ → ℤ
key_at p o = p.lo +ℤ pos o

try_u64-pos : (a : ℕ) → a < u64_mod → try_u64 (pos a) ≡ some a
unfolding try_u64
try_u64-pos a h = ground arith

try_i64-some : (k : ℤ) → IsInt64 k → try_i64 k ≡ some k
unfolding try_i64
try_i64-some (pos a) h = ground arith
try_i64-some (negsuc a) h = ground arith

mul_pos : (a b : ℕ) → pos a *ℤ pos b ≡ pos (a * b)
unfolding ◌*ℤ◌
mul_pos a b = ground arith

start_lem : (k : ℤ) (b s m : ℕ) → k +ℤ pos b *ℤ pos s +ℤ pos m ≡ k +ℤ pos (b * s + m)
start_lem k b s m = rw mul_pos (omega int_laws)

end_lem : (k : ℤ) (o w : ℕ) → 0 < w → k +ℤ pos o +ℤ pos w -ℤ pos 1 ≡ k +ℤ pos (o + w - 1)
end_lem k o w h = omega int_laws

not_zero : (n : ℕ) → 0 < n → (n == 0) ≡ false
not_zero n h = ground arith

back_lem : (k : ℤ) (o : ℕ) → k +ℤ pos o -ℤ k ≡ pos o
back_lem k o = omega int_laws

pos_add : (a b : ℕ) → pos a +ℤ pos b ≡ pos (a + b)
pos_add a b = omega int_laws

pos_sub : (a b : ℕ) → pos a -ℤ pos b ≡ sub_ℕ a b
unfolding ◌-ℤ◌
pos_sub a b = ground arith

width_lem :
    (t : Bool) (s : ℕ) → (if t then pos s +ℤ pos 1 else pos s) ≡ pos (if t then s + 1 else s)
unfolding ◌+ℤ◌
width_lem true s = ground arith
width_lem false s = refl

width_pos : (t : Bool) (s : ℕ) → 0 < s → 0 < (if t then s + 1 else s)
width_pos t s h = ground arith

module _ {p : RangePlan} (v : IsValid p) where
  domain-eq-span : domain p.lo p.hi ≡ pos (span p)
  domain-eq-span = let o = v.ordered in unfold ◌+ℤ◌ ◌-ℤ◌ in ground arith

  span_parts : span p + neg_part p.hi + pos_part p.lo ≡ pos_part p.hi + neg_part p.lo + 1
  span_parts = let o = v.ordered in unfold ◌+ℤ◌ ◌-ℤ◌ in ground arith

  key_at-IsInt64 : (o : ℕ) → o < span p → IsInt64 (key_at p o)
  key_at-IsInt64 o h =
      let f = v.lo_fits in let g = v.hi_fits in unfold ◌+ℤ◌ in ground (arith, span_parts)

  span-le : span p ≤ u64_mod
  span-le = let f = v.lo_fits in let g = v.hi_fits in omega (arith, span_parts)

  pub size_pos : 0 < size p
  size_pos = (le-div_iff_mul-le v.some_bucket).1 (let e = v.no_empty in omega arith)

  pub wide_lt : wide p < p.n
  wide_lt = mod-lt (span p) v.some_bucket

  pub span_split : p.n * size p + wide p ≡ span p
  span_split = div-add-mod (span p) p.n

  in_span : (b : ℕ) → b < p.n → offset (size p) (wide p) (b + 1) ≤ span p
  in_span b h = omega (
    arith,
    offset_mono (size p) (wide p) (b + 1) p.n (omega arith),
    offset_last (size p) (wide p) p.n (omega (arith, wide_lt)),
    span_split,
  )

  pub grows : (b : ℕ) → offset (size p) (wide p) b < offset (size p) (wide p) (b + 1)
  grows b =
      omega (arith, offset_next (size p) (wide p) b, width_pos (ltb b (wide p)) (size p) size_pos)

  offset-lt-span : (b : ℕ) → b < p.n → offset (size p) (wide p) b < span p
  offset-lt-span b h = omega (arith, grows b, in_span b h)

  last-lt-span : (b : ℕ) → b < p.n → offset (size p) (wide p) (b + 1) - 1 < span p
  last-lt-span b h = omega (arith, grows b, in_span b h)

  pub range_lem :
      (b : ℕ)
      → b < p.n
      → range p b
        ≡ some
            (key_at p (offset (size p) (wide p) b), key_at p (offset (size p) (wide p) (b + 1) - 1))
  unfolding range
  range_lem b h =
      rw (lt→ltb b p.n h, domain-eq-span)
        (rw (lt→ltb (wide p) u64_mod (let f = v.buckets_fit in omega (arith, wide_lt))) (
          rw
            (
              width_lem (ltb b (wide p)) (size p),
              start_lem,
              end_lem p.lo _ _ (width_pos (ltb b (wide p)) (size p) size_pos),
              ← offset_next (size p) (wide p) b,
            )
            (rw (
              try_i64-some _ (key_at-IsInt64 _ (offset-lt-span b h)),
              try_i64-some _ (key_at-IsInt64 _ (last-lt-span b h)),
            ))))

  pub locate_lem :
      (o : ℕ) → o < span p → locate p (key_at p o) ≡ some (bucket_of (size p) (wide p) o)
  unfolding locate
  locate_lem o h =
      rw (not_zero p.n v.some_bucket, domain-eq-span)
        (rw (lt→ltb (wide p) u64_mod (let f = v.buckets_fit in omega (arith, wide_lt))) (
          rw (back_lem p.lo o, pos_add (size p) 1)
            (rw mul_pos (
              rw pos_sub (
                ground (
                  arith,
                  size_pos,
                  span-le,
                  div-le_self o (size p + 1),
                  div-le_self (o - wide p * (size p + 1)) (size p),
                ))))))

  pub key-of-offset : (k : ℤ) → p.lo ≤ℤ k → k ≤ℤ p.hi → (o : ℕ) × (key_at p o ≡ k) × (o < span p)
  key-of-offset k from to = (
    pos_part (k -ℤ p.lo),
    (unfold ◌+ℤ◌ ◌-ℤ◌ in ground arith),
    (let e = span_parts in unfold ◌-ℤ◌ in ground arith),
  )

  pub last_key : key_at p (span p - 1) ≡ p.hi
  last_key = let n = v.no_empty in let m = v.some_bucket in omega (int_laws, span_parts)

  pub offset-of-key : (o b : ℕ) → key_at p o ≤ℤ key_at p b → o ≤ b
  offset-of-key o b h = omega int_laws

pub first_key : (k : ℤ) (s r : ℕ) → k +ℤ pos (0 * s + min 0 r) ≡ k
first_key k s r = omega int_laws

pub range-some-lt : (p : RangePlan) (b : ℕ) {r : ℤ × ℤ} → range p b ≡ some r → b < p.n
unfolding range
range-some-lt p b e = ground arith

pub ends_of_some :
    {a b c d : ℤ} → ◌≡◌ {A = Option (ℤ × ℤ)} (some (a, b)) (some (c, d)) → (a ≡ c) × (b ≡ d)
ends_of_some e = (cc, cc)
