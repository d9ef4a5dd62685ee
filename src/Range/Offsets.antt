-- ===== src/Range/Offsets.antt =====
-- The arithmetic of the partition, over natural numbers: `d = s * n + r` keys are cut into `r`
-- buckets of `s + 1` keys and `n - r` of `s`; `offset` is where a bucket begins.
use hepta_dbcli.Prelude.{
  ℕ, ◌+◌, ◌-◌, ◌*◌, ◌/◌, ◌≤◌, ◌<◌, min, ◌≡◌, ap, arith, ltb, if◌then◌else◌, Bool-cases, inl, inr,
  ltb→lt, lt→ltb,
}
use native.Mathlib.Nat.{div-lt_iff_lt-mul, mul-le-mul_right}

abbrev pub offset : ℕ → ℕ → ℕ → ℕ
offset s r b = b * s + min b r

abbrev pub bucket_of : ℕ → ℕ → ℕ → ℕ
bucket_of s r o = if ltb o (r * (s + 1)) then o / (s + 1) else r + (o - r * (s + 1)) / s

div_bounds : (a m : ℕ) → 0 < m → (a / m * m ≤ a) × (a < (a / m + 1) * m)
div_bounds a m h = grind arith

div_unique : (a m q : ℕ) → q * m ≤ a → a < (q + 1) * m → a / m ≡ q
div_unique a m q lo hi = grind arith

add_sub_of_le : (r n : ℕ) → r ≤ n → r + (n - r) ≡ n
add_sub_of_le r n h = omega arith

module _ (s r : ℕ) where
  pub offset_next : (b : ℕ) → offset s r (b + 1) ≡ offset s r b + (if ltb b r then s + 1 else s)
  offset_next b = grind arith

  pub offset_last : (n : ℕ) → r ≤ n → offset s r n ≡ n * s + r
  offset_last n h = grind arith

  pub offset_mono : (a b : ℕ) → a ≤ b → offset s r a ≤ offset s r b
  offset_mono a b h = grind arith

  wide_lt : (o : ℕ) → o < r * (s + 1) → o / (s + 1) < r
  wide_lt o h = (div-lt_iff_lt-mul (omega arith)).1 h

  narrow_lt : (m o : ℕ) → r * (s + 1) ≤ o → o < (r + m) * s + r → o - r * (s + 1) < m * s
  narrow_lt m o h l = omega arith

  wide_le : (b o : ℕ) → b < r → o < (b + 1) * (s + 1) → o < r * (s + 1)
  wide_le b o h l = omega (arith, mul-le-mul_right {m = b + 1} {n = r} (s + 1) (omega arith))

  -- The key at `o` lies in its bucket.
  pub bucket_of_bounds :
      (o : ℕ) → 0 < s → (offset s r (bucket_of s r o) ≤ o) × (o < offset s r (bucket_of s r o + 1))
  bucket_of_bounds o h = elim (Bool-cases (ltb o (r * (s + 1)))) [
    | inl wide ↦
        rw wide (grind (arith, div_bounds o (s + 1) (omega arith), wide_lt o (ltb→lt _ _ wide)))
    | inr narrow ↦ rw narrow (grind (arith, div_bounds (o - r * (s + 1)) s h))
  ]

  pub bucket_of-lt : (n o : ℕ) → 0 < s → r ≤ n → o < n * s + r → bucket_of s r o < n
  bucket_of-lt n o h k l = elim (Bool-cases (ltb o (r * (s + 1)))) [
    | inl wide ↦ rw wide (omega (arith, wide_lt o (ltb→lt _ _ wide)))
    | inr narrow ↦ rw narrow (
        let below : (o - r * (s + 1)) / s < n - r =
          (div-lt_iff_lt-mul h).1
            (narrow_lt (n - r) o (ground arith) (rw (add_sub_of_le r n k) l)) in
        omega arith)
  ]

  early_unique : (b o : ℕ) → b < r → offset s r b ≤ o → o < offset s r (b + 1) → bucket_of s r o ≡ b
  early_unique b o h lo hi =
      rw (lt→ltb o (r * (s + 1)) (wide_le b o h (omega arith)))
        (div_unique o (s + 1) b (omega arith) (omega arith))

  late_unique :
      (m o : ℕ) → offset s r (r + m) ≤ o → o < offset s r (r + m + 1) → bucket_of s r o ≡ r + m
  late_unique m o lo hi = elim (Bool-cases (ltb o (r * (s + 1)))) [
    | inl early ↦ absurd (omega (arith, ltb→lt _ _ early))
    | inr late ↦
        rw late
          (ap (λ (q : ℕ). r + q) (div_unique (o - r * (s + 1)) s m (omega arith) (omega arith)))
  ]

  -- and in no other.
  pub bucket_of_unique :
      (b o : ℕ) → 0 < s → offset s r b ≤ o → o < offset s r (b + 1) → bucket_of s r o ≡ b
  bucket_of_unique b o h lo hi = elim (Bool-cases (ltb b r)) [
    | inl early ↦ early_unique b o (ltb→lt _ _ early) lo hi
    | inr late ↦
        let split = add_sub_of_le r b (ground arith) in
        rw (← split) (late_unique (b - r) o (rw split lo) (rw split hi))
  ]
