-- ===== src/Sample/Fill.antt =====
-- The filling of the selection of dbcli/src/delta_diff/sample.rs.
use hepta_dbcli.Prelude.{
  one_of_two, ℕ, ◌==◌, ◌≤◌, leb, leb→le, Bool, true, false, ◌||◌, List, [], ◌∷◌, ◌++◌, length,
  length-append, ◌≡◌, refl, ◌∙◌, arith, Bool-cases, inl, inr, ◌⊎◌, ==_iff,
}
use mathlib.Core.Path.{subst}
use hepta_dbcli.Sample.{member, range_from, fill}
use hepta_dbcli.Sample.Picks.{member-append}
use hepta_dbcli.Sample.Selects.{member-range_from, all_below-length}

module _ (n : ℕ) where
  fill-longer : (rest picked : List ℕ) → length picked ≤ length (fill n rest picked)
  unfolding fill
  fill-longer [] picked = omega arith
  fill-longer (idx ∷ rest) picked = elim (Bool-cases (leb n (length picked) || member idx picked)) [
    | inl e ↦ rw (fill, e) (fill-longer rest picked)
    | inr e ↦
        rw (fill, e)
          (omega (arith, fill-longer rest (picked ++ idx ∷ []), length-append picked (idx ∷ [])))
  ]

  pub fill-keeps :
      (x : ℕ) (rest picked : List ℕ) → member x picked ≡ true → member x (fill n rest picked) ≡ true
  unfolding fill
  fill-keeps x [] picked h = h
  fill-keeps x (idx ∷ rest) picked h =
      elim (Bool-cases (leb n (length picked) || member idx picked)) [
        | inl e ↦ rw (fill, e) (fill-keeps x rest picked h)
        | inr e ↦
            rw (fill, e)
              (fill-keeps x rest (picked ++ idx ∷ [])
                (member-append x picked (idx ∷ []) ∙ rw h refl))
      ]

  self_member : (x : ℕ) (picked : List ℕ) → member x (picked ++ x ∷ []) ≡ true
  self_member x picked =
      member-append x picked (x ∷ []) ∙ rw ((==_iff x x).1 refl) (always (member x picked))
    where
      always : (b : Bool) → (b || (true || false)) ≡ true
      always true = refl
      always false = refl

  -- The filling stops at the number that is wanted, or it takes all that there is.
  fill-all :
      (rest picked : List ℕ)
      → (n ≤ length (fill n rest picked))
        ⊎ ((x : ℕ) → member x rest ≡ true → member x (fill n rest picked) ≡ true)
  unfolding fill
  fill-all [] picked = inr λ x h. cc
  fill-all (idx ∷ rest) picked = elim (Bool-cases (leb n (length picked) || member idx picked)) [
    | inl e ↦
        rw (fill, e)
          (elim (one_of_two (leb n (length picked)) (member idx picked) e) [
            | inl full ↦ inl (omega (arith, leb→le n (length picked) full, fill-longer rest picked))
            | inr there ↦ with_first picked there (fill-all rest picked)
          ])
    | inr e ↦
        rw (fill, e)
          (with_first (picked ++ idx ∷ []) (self_member idx picked)
            (fill-all rest (picked ++ idx ∷ [])))
  ]
    where
      with_first :
          (now : List ℕ)
          → member idx now ≡ true
          → (n ≤ length (fill n rest now))
            ⊎ ((x : ℕ) → member x rest ≡ true → member x (fill n rest now) ≡ true)
          → (n ≤ length (fill n rest now))
            ⊎ ((x : ℕ) → member x (idx ∷ rest) ≡ true → member x (fill n rest now) ≡ true)
      with_first now there (inl full) = inl full
      with_first now there (inr all) = inr λ x h. elim (Bool-cases (idx == x)) [
        | inl e ↦
            subst (λ (y : ℕ). member y (fill n rest now) ≡ true) ((==_iff idx x).0 e)
              (fill-keeps idx rest now there)
        | inr e ↦ all x (rw e at h)
      ]

  pub fill-enough :
      (total : ℕ) (picked : List ℕ) → n ≤ total → n ≤ length (fill n (range_from 0 total) picked)
  fill-enough total picked h = elim (fill-all (range_from 0 total) picked) [
    | inl full ↦ full
    | inr all ↦ omega (
      arith,
      all_below-length total (fill n (range_from 0 total) picked)
          (λ x k. all x (member-range_from x 0 total (omega arith) (omega arith))),
    )
  ]
