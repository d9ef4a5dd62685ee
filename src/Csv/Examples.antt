-- ===== src/Csv/Examples.antt =====
-- A small table written and read, and the theorems at concrete inputs.
use hepta_dbcli.Prelude.{List, ◌≡◌, refl, [], ◌∷◌, ◌++◌, Option, some, map}
use hepta_dbcli.Text.{Text, codes}
use hepta_dbcli.Report.{Row, null, integer, string, to_string}
use hepta_dbcli.Prelude.Int.{pos}
use hepta_dbcli.Csv.{export_csv, read_csv, columns_for, strip_utf8_bom}
use hepta_dbcli.Csv.RoundTrip.{read_cell, read_csv-export_csv, AllRowsReadable}

abbrev names : Option (List Text)
names = some (codes "id" ∷ codes "note" ∷ codes "extra" ∷ [])

-- A text with a comma, a quote and a line break, an empty text and a NULL.
abbrev first_row : Row
first_row = integer (pos 7) ∷ string (codes "a, \"b\"" ++ 10 ∷ 13 ∷ []) ∷ null ∷ []

abbrev second_row : Row
second_row = integer (pos 8) ∷ string [] ∷ string (codes "x") ∷ []

rows-AllRowsReadable : AllRowsReadable (first_row ∷ second_row ∷ [])
unfolding to_string
rows-AllRowsReadable = (
  (λ e. cc),
  (((λ e. e), (λ e. cc)), ((λ e. refl), (tt, tt))),
  ((λ e. cc), (((λ e. e), (λ e. cc)), ((λ e. e), ((λ e. e), tt))), tt),
)

read_csv-export_csv_example : read_csv (export_csv names (first_row ∷ second_row ∷ [])) ≡ (
  codes "id" ∷ codes "note" ∷ codes "extra" ∷ [],
  map (map read_cell) (first_row ∷ second_row ∷ []),
)
unfolding columns_for strip_utf8_bom export_csv
read_csv-export_csv_example =
    read_csv-export_csv names first_row (second_row ∷ []) ((λ e. e), ((λ e. e), ((λ e. e), tt)))
      rows-AllRowsReadable refl

-- A lone CR is written without quotes, and read as the end of a record.
lone_cr :
    read_csv
      (export_csv (some (codes "id" ∷ [])) ((string (codes "a" ++ 13 ∷ codes "b") ∷ []) ∷ []))
    ≡ (codes "id" ∷ [], (string (codes "a") ∷ []) ∷ (string (codes "b") ∷ []) ∷ [])
unfolding read_csv export_csv
lone_cr = refl
