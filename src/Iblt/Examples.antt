-- ===== src/Iblt/Examples.antt =====
-- Small summaries peeled.
use hepta_dbcli.Prelude.{ℕ, ◌≤◌, true, false, none, List, [], ◌∷◌, arith, ◌≡◌, refl}
use hepta_dbcli.Prelude.Int.{◌-ℤ◌, ◌+ℤ◌}
use hepta_dbcli.Iblt.{
  Entry, Summary, unit_cell, add_cell, get, cell_at, peel, peel_loop, PeelState, Peeled,
  pure_places, subtract, ok, stuck, panic,
}
use hepta_dbcli.Iblt.Sound.{sketch, peel-sketch}
use hepta_dbcli.Iblt.Subtract.{has_unique_places, peel-subtract}
use hepta_dbcli.Iblt.Classify.{classify_keyless}
use hepta_dbcli.Iblt.Classify.Keyless.{Reports, classify_keyless-Reports, classify_keyless-repeated}
use hepta_dbcli.Iblt.Classify.Repeats.{occurrences}

abbrev left_row : Entry
left_row = record { key = 7; val = record { s1 = 1; s2 = 2; s3 = 3; s4 = 4 }; from_left = true }

abbrev right_row : Entry
right_row = record { key = 9; val = record { s1 = 1; s2 = 2; s3 = 3; s4 = 5 }; from_left = false }

abbrev one_row : Summary
one_row =
    ((1, 1), unit_cell left_row)
    ∷ ((2, 2), unit_cell left_row)
    ∷ ((3, 3), unit_cell left_row)
    ∷ ((4, 4), unit_cell left_row)
    ∷ []

one_row_peeled : peel one_row 64 ≡ ok (left_row ∷ [])
unfolding peel ◌-ℤ◌
one_row_peeled = refl

peel-sketch_example : cell_at one_row (2, 2) ≡ sketch 64 (left_row ∷ []) (2, 2)
peel-sketch_example = peel-sketch one_row 64 (left_row ∷ []) (2, 2) one_row_peeled

peel_against_nothing : peel (subtract one_row []) 64 ≡ ok (left_row ∷ [])
unfolding peel subtract ◌-ℤ◌ ◌+ℤ◌
peel_against_nothing = refl

one_row_unique : has_unique_places one_row ≡ true
unfolding get
one_row_unique = refl

peel-subtract_example :
    cell_at one_row (4, 4) ≡ add_cell (sketch 64 (left_row ∷ []) (4, 4)) (cell_at [] (4, 4))
peel-subtract_example =
    peel-subtract one_row [] 64 (left_row ∷ []) (4, 4) one_row_unique refl peel_against_nothing

once : (k : ℕ) → occurrences k (left_row ∷ right_row ∷ []) ≤ 1
once k = ground arith

classify_keyless-Reports_example :
    Reports (left_row ∷ right_row ∷ []) (classify_keyless (left_row ∷ right_row ∷ []))
classify_keyless-Reports_example = classify_keyless-Reports (left_row ∷ right_row ∷ []) once

classify_keyless-repeated_example : classify_keyless (left_row ∷ right_row ∷ left_row ∷ []) ≡ none
classify_keyless-repeated_example =
    classify_keyless-repeated (left_row ∷ right_row ∷ left_row ∷ []) 7 (ground arith)

-- The right row shares three of its four places with the left one. The difference of the two
-- sides holds both rows, peeling them takes five events, and the budget of four refuses it.
abbrev left_side : Summary
left_side = one_row

abbrev right_side : Summary
right_side =
    ((1, 1), unit_cell (record right_row { from_left = true }))
    ∷ ((2, 2), unit_cell (record right_row { from_left = true }))
    ∷ ((3, 3), unit_cell (record right_row { from_left = true }))
    ∷ ((4, 5), unit_cell (record right_row { from_left = true }))
    ∷ []

peel_within_budget : peel (subtract left_side right_side) 64 ≡ stuck
unfolding peel subtract ◌-ℤ◌ ◌+ℤ◌
peel_within_budget = refl

abbrev peeled_entries : Peeled PeelState → List Entry
peeled_entries (ok st) = st.entries
peeled_entries stuck = []
peeled_entries panic = []

peel_with_more :
    peeled_entries (
      peel_loop 64 5
        (pure_places (subtract left_side right_side))
        (record { cells = subtract left_side right_side; queue = []; entries = [] }))
    ≡ left_row ∷ right_row ∷ []
unfolding peel_loop pure_places subtract ◌-ℤ◌ ◌+ℤ◌
peel_with_more = refl
