-- ===== src/HashDiff/Domain.antt =====
-- The key domain of dbcli/src/delta_diff/hash_diff.rs and the keys of both sides.
use hepta_dbcli.Prelude.{true, Option, none, some, ◌≡◌, arith, lt→ltb, if-cases, ◌⊎◌, inl, inr}
use hepta_dbcli.Prelude.Int.{ℤ, pos, ◌+ℤ◌, ◌≤ℤ◌, ltb_ℤ, int_laws}
use hepta_dbcli.HashDiff.{add_i64, min_ℤ, max_ℤ, key_domain}
use hepta_dbcli.HashDiff.Tiles.{IsInt64, add_i64-exact}

-- The key is between the smallest and the largest of a side.
abbrev pub InSide : ℤ → Option (ℤ × ℤ) → Type 0
InSide k none = ⊥
InSide k (some s) = (s.0 ≤ℤ k) × (k ≤ℤ s.1)

abbrev pub InDomain : ℤ → Option (ℤ × ℤ) → Type 0
InDomain k none = ⊥
InDomain k (some d) = (d.0 ≤ℤ k) × (ltb_ℤ k d.1 ≡ true)

-- The number after the largest key of the side is one of the type.
abbrev pub Below : Option (ℤ × ℤ) → Type 0
Below none = Unit
Below (some s) = IsInt64 (s.1 +ℤ pos 1)

above : (k a : ℤ) → IsInt64 (a +ℤ pos 1) → k ≤ℤ a → ltb_ℤ k (add_i64 a (pos 1)) ≡ true
above k a h le = rw (add_i64-exact a (pos 1) h) (lt→ltb _ _ (omega int_laws))

within :
    (k a b : ℤ) → IsInt64 (b +ℤ pos 1) → a ≤ℤ k → k ≤ℤ b → InDomain k (some (a, add_i64 b (pos 1)))
within k a b h lo hi = (lo, above k b h hi)

module _ (a b : ℤ) where
  min_ℤ-le : (min_ℤ a b ≤ℤ a) × (min_ℤ a b ≤ℤ b)
  min_ℤ-le =
      if-cases (λ (m : ℤ). (m ≤ℤ a) × (m ≤ℤ b)) (ltb_ℤ b a) (λ e. (ground arith, omega arith))
        (λ e. (omega arith, ground arith))

  max_ℤ-le : (a ≤ℤ max_ℤ a b) × (b ≤ℤ max_ℤ a b)
  max_ℤ-le =
      if-cases (λ (m : ℤ). (a ≤ℤ m) × (b ≤ℤ m)) (ltb_ℤ b a) (λ e. (omega arith, ground arith))
        (λ e. (ground arith, omega arith))

  max_ℤ-Below : IsInt64 (a +ℤ pos 1) → IsInt64 (b +ℤ pos 1) → IsInt64 (max_ℤ a b +ℤ pos 1)
  max_ℤ-Below h k = if-cases (λ (m : ℤ). IsInt64 (m +ℤ pos 1)) (ltb_ℤ b a) (λ _. h) (λ _. k)

≤ℤ_trans : (a b c : ℤ) → a ≤ℤ b → b ≤ℤ c → a ≤ℤ c
≤ℤ_trans a b c h k = omega arith

-- Every key of either side is in the domain, if the largest key of each side is not the largest i64.
pub key_domain-InDomain :
    (l r : Option (ℤ × ℤ)) (k : ℤ)
    → Below l
    → Below r
    → InSide k l ⊎ InSide k r
    → InDomain k (key_domain l r)
unfolding key_domain
key_domain-InDomain none none k h g (inl e) = e
key_domain-InDomain none none k h g (inr e) = e
key_domain-InDomain none (some s) k h g (inl e) = absurd e
key_domain-InDomain none (some s) k h g (inr e) = within k s.0 s.1 g e.0 e.1
key_domain-InDomain (some s) none k h g (inl e) = within k s.0 s.1 h e.0 e.1
key_domain-InDomain (some s) none k h g (inr e) = absurd e
key_domain-InDomain (some s) (some t) k h g (inl e) =
    within k (min_ℤ s.0 t.0) (max_ℤ s.1 t.1) (max_ℤ-Below s.1 t.1 h g)
      (≤ℤ_trans (min_ℤ s.0 t.0) s.0 k (min_ℤ-le s.0 t.0).0 e.0)
      (≤ℤ_trans k s.1 (max_ℤ s.1 t.1) e.1 (max_ℤ-le s.1 t.1).0)
key_domain-InDomain (some s) (some t) k h g (inr e) =
    within k (min_ℤ s.0 t.0) (max_ℤ s.1 t.1) (max_ℤ-Below s.1 t.1 h g)
      (≤ℤ_trans (min_ℤ s.0 t.0) t.0 k (min_ℤ-le s.0 t.0).1 e.0)
      (≤ℤ_trans k t.1 (max_ℤ s.1 t.1) e.1 (max_ℤ-le s.1 t.1).1)
