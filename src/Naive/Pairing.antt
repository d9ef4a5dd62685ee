-- ===== src/Naive/Pairing.antt =====
-- The map of a merge against the left rows of each key that are not consumed.
use mathlib.Core.Path.{subst}
use hepta_dbcli.Prelude.{
  ℕ, zero, suc, Bool, true, false, List, [], ◌∷◌, map, Option, none, some, set, ◌≡◌, refl, sym, ap,
  ◌∙◌, Bool-cases, inl, inr,
}
use hepta_dbcli.Prelude.Assoc.{IsEquivTest}
use hepta_dbcli.Naive.{cons_popped, pop_last}

abbrev pub open_at : Bool → Bool → List ℕ → List ℕ
open_at true t is = is
open_at false true is = zero ∷ is
open_at false false is = is

module _ {K : Type 0} (eq : K → K → Bool) where
  -- The indices, from 0, of the keys `k` that are not consumed.
  abbrev pub open_indices : K → List Bool → List K → List ℕ
  open_indices k cs [] = []
  open_indices k [] (j ∷ js) = []
  open_indices k (c ∷ cs) (j ∷ js) = open_at c (eq j k) (map suc (open_indices k cs js))

abbrev shift : Option (List ℕ × ℕ) → Option (List ℕ × ℕ)
shift none = none
shift (some (rest, i)) = some (map suc rest, suc i)

pop_last-map-suc : (is : List ℕ) → pop_last (map suc is) ≡ shift (pop_last is)
pop_last-map-suc [] = refl
pop_last-map-suc (i ∷ is) = ap (cons_popped (suc i)) (pop_last-map-suc is) ∙ shifted (pop_last is)
  where
    shifted : (o : Option (List ℕ × ℕ)) → cons_popped (suc i) (shift o) ≡ shift (cons_popped i o)
    shifted none = refl
    shifted (some (ys, y)) = refl

module _ {K : Type 0} (eq : K → K → Bool) (laws : IsEquivTest eq) where
  -- What taking the last of the open indices of a key leaves open.
  abbrev pub Leaves : K → List Bool → List K → Option (List ℕ × ℕ) → Type 0
  Leaves k cs js none = open_indices eq k cs js ≡ []
  Leaves k cs js (some (rest, i)) =
      (open_indices eq k (set cs i true) js ≡ rest)
      × ((g : K) → eq k g ≡ false → open_indices eq g (set cs i true) js ≡ open_indices eq g cs js)

  passed :
      (k : K) (c : Bool) (cs : List Bool) (j : K) (js : List K) (o : Option (List ℕ × ℕ))
      → (open_at c (eq j k) (map suc (open_indices eq k cs js)) ≡ map suc (open_indices eq k cs js))
      → ((is : List ℕ) → open_at c (eq j k) is ≡ is)
      → Leaves k cs js o
      → Leaves k (c ∷ cs) (j ∷ js) (shift o)
  passed k c cs j js none skipped skips h = skipped ∙ ap (map suc) h
  passed k c cs j js (some (rest, i)) skipped skips (h, others) = (
    skips _ ∙ ap (map suc) h,
    λ g d. ap (λ (is : List ℕ). open_at c (eq j g) (map suc is)) (others g d),
  )

  other : (t : Bool) (is : List ℕ) → t ≡ false → is ≡ open_at false t is
  other t is e = ap (λ (u : Bool). open_at false u is) (sym e)

  chosen :
      (k : K) (cs : List Bool) (j : K) (js : List K) (o : Option (List ℕ × ℕ))
      → eq j k ≡ true
      → Leaves k cs js o
      → Leaves k (false ∷ cs) (j ∷ js) (cons_popped zero (shift o))
  chosen k cs j js none e h = (ap (map suc) h, λ g d. other (eq j g) _ (laws.alike j k g e ∙ d))
  chosen k cs j js (some (rest, i)) e (h, others) = (
    ap (λ (t : Bool). open_at false t (map suc (open_indices eq k (set cs i true) js))) e
        ∙ ap (λ (is : List ℕ). zero ∷ map suc is) h,
    λ g d. ap (λ (is : List ℕ). open_at false (eq j g) (map suc is)) (others g d),
  )

  pub pop_last-Leaves :
      (k : K) (cs : List Bool) (js : List K) → Leaves k cs js (pop_last (open_indices eq k cs js))
  pop_last-Leaves k cs [] = refl
  pop_last-Leaves k [] (j ∷ js) = refl
  pop_last-Leaves k (true ∷ cs) (j ∷ js) =
      subst (Leaves k (true ∷ cs) (j ∷ js)) (sym (pop_last-map-suc (open_indices eq k cs js)))
        (passed k true cs j js _ refl (λ is. refl) (pop_last-Leaves k cs js))
  pop_last-Leaves k (false ∷ cs) (j ∷ js) =
      let later = open_indices eq k cs js in
      let tested = λ (t : Bool). pop_last (open_at false t (map suc later)) in
      elim (Bool-cases (eq j k)) [
        | inl e ↦
            subst (Leaves k (false ∷ cs) (j ∷ js))
              (sym (ap tested e ∙ ap (cons_popped zero) (pop_last-map-suc later)))
              (chosen k cs j js _ e (pop_last-Leaves k cs js))
        | inr e ↦
            subst (Leaves k (false ∷ cs) (j ∷ js)) (sym (ap tested e ∙ pop_last-map-suc later)) (
              passed k false cs j js _ (sym (other (eq j k) _ e)) (λ is. sym (other (eq j k) is e))
                (pop_last-Leaves k cs js))
      ]
