-- ===== src/Minus/Examples.antt =====
-- An answer with a modified row and a row of the left side only.
use hepta_dbcli.Prelude.{true, none, some, List, [], ◌∷◌, map, ◌≡◌, refl}
use hepta_dbcli.Prelude.Int.{pos}
use hepta_dbcli.Prelude.Sort.{count_if}
use hepta_dbcli.Text.{codes}
use hepta_dbcli.Report.{string, integer, Row, DiffRow, single, missing_right, modified}
use hepta_dbcli.Minus.{ok, classify_minus_rows}
use hepta_dbcli.Minus.Accounts.{classify_minus_rows-reported}
use hepta_dbcli.Minus.Answer.{reported, answer_of, EachFits}

abbrev left_and_right : List Row
left_and_right =
    (string (codes "L") ∷ integer (pos 1) ∷ string (codes "a") ∷ string (codes "1") ∷ [])
    ∷ (string (codes "R") ∷ integer (pos 1) ∷ string (codes "b") ∷ string (codes "1") ∷ [])
    ∷ (string (codes "L") ∷ integer (pos 2) ∷ string (codes "c") ∷ string (codes "2") ∷ [])
    ∷ []

abbrev two_rows : List DiffRow
two_rows =
    (record {
      key = single (integer (pos 1));
      left = some (integer (pos 1) ∷ string (codes "a") ∷ []);
      right = some (integer (pos 1) ∷ string (codes "b") ∷ []);
      status = modified;
      confirmed = true;
    })
    ∷ (record {
      key = single (integer (pos 2));
      left = some (integer (pos 2) ∷ string (codes "c") ∷ []);
      right = none;
      status = missing_right;
      confirmed = true;
    })
    ∷ []

classified_two : classify_minus_rows 1 1 left_and_right ≡ ok two_rows
unfolding classify_minus_rows
classified_two = refl

classify_minus_rows-reported_example :
    (count_if (λ r. r.0) (reported two_rows)
      ≡ count_if (λ r. r.0) (map (answer_of 2) left_and_right))
    × EachFits two_rows
classify_minus_rows-reported_example =
    classify_minus_rows-reported (λ r. r.0) 1 1 left_and_right two_rows classified_two
