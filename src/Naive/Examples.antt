-- ===== src/Naive/Examples.antt =====
-- Two small sides, with decimals read as digits.
use hepta_dbcli.Prelude.{ℕ, ◌-◌, ◌==◌, true, List, [], ◌∷◌, ◌≡◌, arith}
use hepta_dbcli.Prelude.Int.{pos}
use hepta_dbcli.Prelude.Sort.{count_if}
use hepta_dbcli.Text.{codes}
use hepta_dbcli.Decimals.{DecimalOps, IsDecimal}
use hepta_dbcli.Report.{null, string, integer, Row, digits}
use hepta_dbcli.Number.{parse_u64, order_of}
use hepta_dbcli.Naive.{num, keyless_merge}
use hepta_dbcli.Naive.Keyless.{rows_like, lost_on_left, lost_on_right, keyless_merge-rows_like}

-- A concrete reading of decimals: whole numbers.
abbrev whole_numbers : DecimalOps
whole_numbers = record {
  Number = ℕ;
  parse = parse_u64;
  same = ◌==◌;
  order = order_of;
  show = digits;
}

whole_numbers-IsDecimal : IsDecimal whole_numbers
whole_numbers-IsDecimal = record {
  self = λ k. ground arith;
  swapped = λ k j. ground arith;
  alike = λ i j k e. ground arith;
}

abbrev left_rows : List Row
left_rows = (integer (pos 1) ∷ []) ∷ (string (codes "1") ∷ []) ∷ (null ∷ []) ∷ []

abbrev right_rows : List Row
right_rows = (string (codes " 1 ") ∷ []) ∷ (integer (pos 2) ∷ []) ∷ []

keyless_merge-rows_like_example :
    (count_if
        (lost_on_left whole_numbers (true ∷ []) (num 1 ∷ []))
        (keyless_merge whole_numbers left_rows right_rows (true ∷ []) (true ∷ []))
      ≡ rows_like whole_numbers (true ∷ []) (num 1 ∷ []) right_rows
        - rows_like whole_numbers (true ∷ []) (num 1 ∷ []) left_rows)
    × (count_if
          (lost_on_right whole_numbers (true ∷ []) (num 1 ∷ []))
          (keyless_merge whole_numbers left_rows right_rows (true ∷ []) (true ∷ []))
        ≡ rows_like whole_numbers (true ∷ []) (num 1 ∷ []) left_rows
          - rows_like whole_numbers (true ∷ []) (num 1 ∷ []) right_rows)
keyless_merge-rows_like_example =
    keyless_merge-rows_like whole_numbers whole_numbers-IsDecimal left_rows right_rows (true ∷ [])
      (true ∷ []) (num 1 ∷ [])
