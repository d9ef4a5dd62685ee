-- ===== src/Pairing/Examples.antt =====
-- Two columns of one spelling against two that differ in the case only.
use hepta_dbcli.Prelude.{◌≤◌, some, List, [], ◌∷◌, ◌≡◌, refl}
use hepta_dbcli.Text.{Text, codes}
use hepta_dbcli.Pairing.{pair_names}
use hepta_dbcli.Pairing.Names.{Matches, pair_names-Matches}
use hepta_dbcli.Pairing.Once.{times}

abbrev left_names : List Text
left_names = codes "ID" ∷ codes "Id" ∷ []

abbrev right_names : List Text
right_names = codes "Id" ∷ codes "name" ∷ codes "id" ∷ []

pair_names-Matches_example :
    Matches right_names left_names (pair_names left_names right_names).right_of_left
    × times 2 (pair_names left_names right_names).right_of_left ≤ 1
pair_names-Matches_example = pair_names-Matches left_names right_names 2

-- The exact match of the second name is reserved before the first one looks for a candidate.
exact_first : (pair_names left_names right_names).right_of_left ≡ some 2 ∷ some 0 ∷ []
unfolding pair_names
exact_first = refl
