-- ===== src/Prelude/Assoc.antt =====
-- Maps as association lists: the order of the list stands for the order in which the map is walked.
use mathlib.Core.Path.{◌≡◌, refl, sym, ap, ◌∙◌}
use mathlib.Core.Bool.{Bool, true, false}
use mathlib.Core.List.{List, [], ◌∷◌, ◌++◌}
use mathlib.Core.Option.{Option, none, some}
use mathlib.Core.Logic.{inl, inr, ◌≢◌}
use hepta_dbcli.Prelude.Tests.{if◌then◌else◌, Bool-cases}
use native.Mathlib.Omega.{arith}

-- What a test for equality of keys does.
pub record IsEqTest {ℓ} {K : Type ℓ} (eq : K → K → Bool) : Type ℓ where
  pub eq_refl : (k : K) → eq k k ≡ true
  pub eq_path : (k j : K) → eq k j ≡ true → k ≡ j

different : false ≢ true
different e = ground arith

-- What a test for an equivalence of keys does.
pub record IsEquivTest {ℓ} {K : Type ℓ} (eq : K → K → Bool) : Type ℓ where
  pub self : (k : K) → eq k k ≡ true
  pub swapped : (k j : K) → eq k j ≡ eq j k
  pub alike : (i j k : K) → eq i j ≡ true → eq i k ≡ eq j k

module _ {ℓ} {K : Type ℓ} (eq : K → K → Bool) where
  pub IsEqTest-IsEquivTest : IsEqTest eq → IsEquivTest eq
  IsEqTest-IsEquivTest laws = record { self = laws.eq_refl; swapped = sym_test; alike = alike }
    where
      alike : (i j k : K) → eq i j ≡ true → eq i k ≡ eq j k
      alike i j k e = ap (λ (x : K). eq x k) (laws.eq_path i j e)

      reversed : (k j : K) → eq k j ≡ true → eq j k ≡ true
      reversed k j e = ap (eq j) (laws.eq_path k j e) ∙ laws.eq_refl j

      sym_test : (k j : K) → eq k j ≡ eq j k
      sym_test k j = elim (Bool-cases (eq k j)) [
        | inl e ↦ e ∙ sym (reversed k j e)
        | inr e ↦ elim (Bool-cases (eq j k)) [
          | inl f ↦ absurd (different (sym e ∙ reversed j k f))
          | inr f ↦ e ∙ sym f
        ]
      ]

  pub eq_apart : IsEquivTest eq → (i j k : K) → eq i j ≡ false → eq i k ≡ true → eq j k ≡ false
  eq_apart laws i j k e h = elim (Bool-cases (eq j k)) [
    | inl t ↦ absurd (different (sym e ∙ laws.alike i k j h ∙ laws.swapped k j ∙ t))
    | inr t ↦ t
  ]

module _ {ℓ κ} {K : Type ℓ} {V : Type κ} (eq : K → K → Bool) where
  -- `get`
  unfoldable pub find : List (K × V) → K → Option V
  find [] k = none
  find ((j, v) ∷ m) k = if eq j k then some v else find m k

  -- `entry`: the value of the key, if there is one, is replaced by what `f` makes of it.
  unfoldable pub upsert : (Option V → V) → K → List (K × V) → List (K × V)
  upsert f k [] = (k, f none) ∷ []
  upsert f k ((j, v) ∷ m) = if eq j k then (j, f (some v)) ∷ m else (j, v) ∷ upsert f k m

  pub find-nil : (k : K) → find [] k ≡ none
  unfolding find
  find-nil k = refl

  pub find-cons :
      (j k : K) (v : V) (m : List (K × V))
      → find ((j, v) ∷ m) k ≡ (if eq j k then some v else find m k)
  unfolding find
  find-cons j k v m = refl

  -- A new key is put at the end.
  pub upsert-missing :
      (f : Option V → V) (k : K) (m : List (K × V))
      → find m k ≡ none
      → upsert f k m ≡ m ++ (k, f none) ∷ []
  unfolding find upsert
  upsert-missing f k [] h = refl
  upsert-missing f k ((j, v) ∷ m) h = elim (Bool-cases (eq j k)) [
    | inl e ↦ absurd (ground arith)
    | inr e ↦ rw (e, upsert-missing f k m (ground arith)) refl
  ]

  module _ (laws : IsEquivTest eq) where
    pub find-upsert :
        (f : Option V → V) (k q : K) (m : List (K × V))
        → find (upsert f k m) q ≡ (if eq k q then some (f (find m q)) else find m q)
    unfolding find upsert
    find-upsert f k q [] = refl
    find-upsert f k q ((j, v) ∷ m) = elim (Bool-cases (eq j k)) [
      | inl e ↦ rw (e, laws.alike j k q e) (branch (eq k q))
      | inr e ↦ rw e (
          rw (find-upsert f k q m) (elim (Bool-cases (eq j q)) [
            | inl h ↦ rw (h, eq_apart eq laws j k q e h) refl
            | inr h ↦ rw h refl
          ]))
    ]
      where
        branch :
            (b : Bool)
            → (if b then some (f (some v)) else find m q) ≡ (
                if b
                then some (f (if b then some v else find m q))
                else (if b then some v else find m q))
        branch true = refl
        branch false = refl
