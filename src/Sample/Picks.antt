-- ===== src/Sample/Picks.antt =====
-- Lists of different row numbers, and the loops that extend them.
use hepta_dbcli.Prelude.{
  or_false, ℕ, ◌+◌, ◌==◌, ◌≤◌, ◌<◌, leb, Bool, true, false, not, ◌||◌, List, [], ◌∷◌, ◌++◌, length,
  length-append, ◌≡◌, refl, ◌∙◌, arith, Bool-cases, inl, inr,
}
use hepta_dbcli.Sample.{
  member, Chosen, uncovered, bitmask, seen_before, take_quota, take_uncovered, take_shapes, fill,
}

abbrev pub DistinctNumbers : List ℕ → Type 0
DistinctNumbers [] = Unit
DistinctNumbers (x ∷ xs) = (member x xs ≡ false) × DistinctNumbers xs

abbrev pub AllBelow : ℕ → List ℕ → Type 0
AllBelow total [] = Unit
AllBelow total (x ∷ xs) = (x < total) × AllBelow total xs

-- At most as many as wanted, different, and each the number of a row.
abbrev pub Picks : ℕ → ℕ → List ℕ → Type 0
Picks n total picked = (length picked ≤ n) × DistinctNumbers picked × AllBelow total picked

pub member-append : (x : ℕ) (xs ys : List ℕ) → member x (xs ++ ys) ≡ (member x xs || member x ys)
member-append x [] ys = refl
member-append x (z ∷ xs) ys =
    rw (member-append x xs ys) (assoc (z == x) (member x xs) (member x ys))
  where
    assoc : (a b c : Bool) → (a || (b || c)) ≡ ((a || b) || c)
    assoc true b c = refl
    assoc false b c = refl

eq_swapped : (x y : ℕ) → (x == y) ≡ (y == x)
eq_swapped x y = ground arith

DistinctNumbers-push :
    (x : ℕ) (xs : List ℕ)
    → member x xs ≡ false
    → DistinctNumbers xs
    → DistinctNumbers (xs ++ x ∷ [])
DistinctNumbers-push x [] h d = (refl, tt)
DistinctNumbers-push x (y ∷ xs) h d =
    let parts = or_false (y == x) (member x xs) h in
    (
      member-append y xs (x ∷ []) ∙ rw (d.0, eq_swapped x y, parts.0) refl,
      DistinctNumbers-push x xs parts.1 d.1,
    )

AllBelow-push :
    (total x : ℕ) (xs : List ℕ) → x < total → AllBelow total xs → AllBelow total (xs ++ x ∷ [])
AllBelow-push total x [] h all = (h, tt)
AllBelow-push total x (y ∷ xs) h all = (all.0, AllBelow-push total x xs h all.1)

abbrev pub RowsBelow : ℕ → List (ℕ × List ℕ) → Type 0
RowsBelow total [] = Unit
RowsBelow total ((i, cols) ∷ ms) = (i < total) × RowsBelow total ms

module _ (n total : ℕ) where
  -- The step that all loops share.
  Picks-push :
      (x : ℕ) (picked : List ℕ)
      → (leb n (length picked) || member x picked) ≡ false
      → x < total
      → Picks n total picked
      → Picks n total (picked ++ x ∷ [])
  Picks-push x picked h below p =
      let parts = or_false (leb n (length picked)) (member x picked) h in
      (
        rw (length-append picked (x ∷ [])) (room (length picked) parts.0),
        DistinctNumbers-push x picked parts.1 p.1,
        AllBelow-push total x picked below p.2,
      )
    where
      room : (k : ℕ) → leb n k ≡ false → k + 1 ≤ n
      room k e = ground arith

  pub take_quota-Picks :
      (changes : List (ℕ × List ℕ)) (slots : List ℕ) (st : Chosen)
      → AllBelow total slots
      → Picks n total st.picked
      → Picks n total (take_quota n changes slots st).picked
  unfolding take_quota
  take_quota-Picks changes [] st all p = p
  take_quota-Picks changes (slot ∷ slots) st all p =
      elim (Bool-cases (leb n (length st.picked) || member slot st.picked)) [
        | inl e ↦ rw (take_quota, e) (take_quota-Picks changes slots st all.1 p)
        | inr e ↦
            rw (take_quota, e)
              (take_quota-Picks changes slots _ all.1 (Picks-push slot st.picked e all.0 p))
      ]

  pub take_uncovered-Picks :
      (ms : List (ℕ × List ℕ)) (st : Chosen)
      → RowsBelow total ms
      → Picks n total st.picked
      → Picks n total (take_uncovered n ms st).picked
  unfolding take_uncovered
  take_uncovered-Picks [] st all p = p
  take_uncovered-Picks ((idx, cols) ∷ ms) st all p =
      elim (Bool-cases
        ((leb n (length st.picked) || member idx st.picked) || not (uncovered cols st.covered))) [
          | inl e ↦ rw (take_uncovered, e) (take_uncovered-Picks ms st all.1 p)
          | inr e ↦
              rw (take_uncovered, e)
                (take_uncovered-Picks ms _ all.1
                  (Picks-push idx st.picked (or_false _ _ e).0 all.0 p))
        ]

  pub take_shapes-Picks :
      (value_len : ℕ) (ms : List (ℕ × List ℕ)) (seen : List (List ℕ)) (picked : List ℕ)
      → RowsBelow total ms
      → Picks n total picked
      → Picks n total (take_shapes n value_len ms seen picked)
  unfolding take_shapes
  take_shapes-Picks value_len [] seen picked all p = p
  take_shapes-Picks value_len ((idx, cols) ∷ ms) seen picked all p =
      elim (Bool-cases (
        (leb n (length picked) || member idx picked)
        || seen_before (bitmask cols value_len) seen)) [
          | inl e ↦ rw (take_shapes, e) (take_shapes-Picks value_len ms seen picked all.1 p)
          | inr e ↦
              rw (take_shapes, e)
                (take_shapes-Picks value_len ms (bitmask cols value_len ∷ seen) (picked ++ idx ∷ [])
                  all.1 (Picks-push idx picked (or_false _ _ e).0 all.0 p))
        ]

  pub fill-Picks :
      (rest picked : List ℕ)
      → AllBelow total rest
      → Picks n total picked
      → Picks n total (fill n rest picked)
  unfolding fill
  fill-Picks [] picked all p = p
  fill-Picks (idx ∷ rest) picked all p =
      elim (Bool-cases (leb n (length picked) || member idx picked)) [
        | inl e ↦ rw (fill, e) (fill-Picks rest picked all.1 p)
        | inr e ↦
            rw (fill, e)
              (fill-Picks rest (picked ++ idx ∷ []) all.1 (Picks-push idx picked e all.0 p))
      ]
