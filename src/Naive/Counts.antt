-- ===== src/Naive/Counts.antt =====
-- How many rows of each key a merge leaves unpaired.
use mathlib.Core.List.{append-nil, append_assoc}
use hepta_dbcli.Prelude.{
  ℕ, suc, ◌+◌, Bool, true, false, List, [], ◌∷◌, ◌++◌, map, Option, none, some, set, length,
  replicate, ◌≡◌, refl, sym, ap, ◌∙◌, arith, Bool-cases, if-true, if-false, inl, inr,
}
use hepta_dbcli.Prelude.Assoc.{find, upsert, IsEquivTest, find-upsert}
use hepta_dbcli.Naive.{cons_popped, pop_last, or_nil, index_rows}
use hepta_dbcli.Naive.Pairing.{open_at, open_indices, Leaves}

module _ {ℓ} {A : Type ℓ} where
  abbrev pub popped_size : Option (List A × A) → ℕ
  popped_size none = 0
  popped_size (some (rest, x)) = suc (length rest)

  pub length-pop_last : (xs : List A) → length xs ≡ popped_size (pop_last xs)
  length-pop_last [] = refl
  length-pop_last (x ∷ xs) = ap suc (length-pop_last xs) ∙ sym (one_more (pop_last xs))
    where
      one_more : (o : Option (List A × A)) → popped_size (cons_popped x o) ≡ suc (popped_size o)
      one_more none = refl
      one_more (some (ys, y)) = refl

plus_zero : (i : ℕ) → i ≡ i + 0
plus_zero i = omega arith

map_shift : (i : ℕ) (ns : List ℕ) → map (λ n. suc i + n) ns ≡ map (λ n. i + n) (map suc ns)
map_shift i [] = refl
map_shift i (n ∷ ns) = λ j. one_over j ∷ map_shift i ns j
  where
    one_over : suc i + n ≡ i + suc n
    one_over = omega arith

module _ {K : Type 0} (eq : K → K → Bool) (laws : IsEquivTest eq) where
  -- The map and the marks agree: under each key are its open indices.
  abbrev pub Synced : List (K × List ℕ) → List Bool → List K → Type 0
  Synced m cs js = (k : K) → or_nil (find eq m k) ≡ open_indices eq k cs js

  pub open_indices-alike :
      (k g : K) (cs : List Bool) (js : List K)
      → eq k g ≡ true
      → open_indices eq k cs js ≡ open_indices eq g cs js
  open_indices-alike k g cs [] e = refl
  open_indices-alike k g [] (j ∷ js) e = refl
  open_indices-alike k g (c ∷ cs) (j ∷ js) e = λ i.
      open_at c ((laws.swapped j k ∙ laws.alike k g j e ∙ laws.swapped g j) i)
        (map suc (open_indices-alike k g cs js e i))

  pub popped-Synced :
      (k : K) (m : List (K × List ℕ)) (cs : List Bool) (js : List K) (rest : List ℕ) (i : ℕ)
      → Synced m cs js
      → Leaves eq laws k cs js (some (rest, i))
      → Synced (upsert eq (λ o. rest) k m) (set cs i true) js
  popped-Synced k m cs js rest i h (own, others) g = elim (Bool-cases (eq k g)) [
    | inl e ↦
        ap or_nil (find-upsert eq laws (λ o. rest) k g m ∙ if-true _ _ e)
        ∙ sym own
        ∙ open_indices-alike k g (set cs i true) js e
    | inr e ↦
        ap or_nil (find-upsert eq laws (λ o. rest) k g m ∙ if-false _ _ e) ∙ h g ∙ sym (others g e)
  ]

  pub index_rows-open :
      (i : ℕ) (ks : List K) (m : List (K × List ℕ)) (g : K)
      → or_nil (find eq (index_rows eq i ks m) g)
        ≡ or_nil (find eq m g)
          ++ map (λ n. i + n) (open_indices eq g (replicate (length ks) false) ks)
  unfolding index_rows
  index_rows-open i [] m g = sym (append-nil (or_nil (find eq m g)))
  index_rows-open i (k ∷ ks) m g =
      let later = open_indices eq g (replicate (length ks) false) ks in
      let push = λ (o : Option (List ℕ)). or_nil o ++ i ∷ [] in
      index_rows-open (suc i) ks (upsert eq push k m) g ∙ elim (Bool-cases (eq k g)) [
        | inl e ↦
            ap (λ (o : Option (List ℕ)). or_nil o ++ map (λ n. suc i + n) later)
              (find-upsert eq laws push k g m ∙ if-true _ _ e)
            ∙ append_assoc (or_nil (find eq m g)) (i ∷ []) _
            ∙ ap (λ (t : List ℕ). or_nil (find eq m g) ++ t)
                ((λ j. plus_zero i j ∷ map_shift i later j)
                  ∙ ap (λ (t : Bool). map (λ n. i + n) (open_at false t (map suc later))) (sym e))
        | inr e ↦
            ap (λ (o : Option (List ℕ)). or_nil o ++ map (λ n. suc i + n) later)
              (find-upsert eq laws push k g m ∙ if-false _ _ e)
            ∙ ap (λ (t : List ℕ). or_nil (find eq m g) ++ t)
                (map_shift i later
                  ∙ ap (λ (t : Bool). map (λ n. i + n) (open_at false t (map suc later))) (sym e))
      ]
