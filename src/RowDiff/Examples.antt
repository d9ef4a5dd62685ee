-- ===== src/RowDiff/Examples.antt =====
-- Two scans of one page each.
use hepta_dbcli.Prelude.{ℕ, ◌==◌, true, false, none, some, List, [], ◌∷◌, ◌≡◌, refl, arith}
use hepta_dbcli.Prelude.Int.{pos}
use hepta_dbcli.Text.{Text, codes}
use hepta_dbcli.Number.{parse_u64, order_of}
use hepta_dbcli.Decimals.{DecimalOps}
use hepta_dbcli.Report.{string, integer, Row, digits}
use hepta_dbcli.RowDiff.Paging.{rows, Scan, new_cursor, judge, row_level_diff}
use hepta_dbcli.RowDiff.Paging.Flat.{flat_merge}
use hepta_dbcli.RowDiff.Paging.Pages.{Serves, ended, served}
use hepta_dbcli.RowDiff.Paging.Refines.{outcome_of, no_differences, row_level_diff-flat_merge}

abbrev whole_numbers : DecimalOps
whole_numbers = record {
  Number = ℕ;
  parse = parse_u64;
  same = ◌==◌;
  order = order_of;
  show = digits;
}

abbrev left_rows : List Row
left_rows =
    (integer (pos 1) ∷ string (codes "a") ∷ []) ∷ (integer (pos 2) ∷ string (codes "b") ∷ []) ∷ []

abbrev right_rows : List Row
right_rows = (string (codes "2") ∷ string (codes "c") ∷ []) ∷ []

abbrev one_page : List Row → Scan Text
one_page got none = rows got
one_page got (some key) = rows []

left_pages : Serves 1 (one_page left_rows) new_cursor left_rows 1
left_pages = served left_rows refl refl (ended refl)

right_pages : Serves 1 (one_page right_rows) new_cursor right_rows 1
right_pages = served right_rows refl refl (ended refl)

row_level_diff-flat_merge_example :
    row_level_diff whole_numbers
      (λ t. t)
      7
      (one_page left_rows)
      (one_page right_rows)
      2
      2
      1
      (true ∷ false ∷ [])
      (true ∷ false ∷ [])
    ≡ outcome_of
        (flat_merge 1
          (judge whole_numbers 1 (true ∷ false ∷ []))
          left_rows
          right_rows
          no_differences)
        2
row_level_diff-flat_merge_example =
    row_level_diff-flat_merge whole_numbers (λ t. t) 7 (one_page left_rows) (one_page right_rows) 2
      2 1 (true ∷ false ∷ []) (true ∷ false ∷ []) left_rows right_rows 1 1 refl refl refl left_pages
      right_pages (omega arith)
