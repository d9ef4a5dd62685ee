-- ===== src/Skew/Examples.antt =====
-- A small left side of two rows, one of which the large right side has.
use hepta_dbcli.Prelude.{ℕ, ◌==◌, true, false, List, [], ◌∷◌, refl}
use hepta_dbcli.Prelude.Int.{pos}
use hepta_dbcli.Text.{codes}
use hepta_dbcli.Number.{parse_u64, order_of}
use hepta_dbcli.Decimals.{DecimalOps}
use hepta_dbcli.Report.{string, integer, Row, digits}
use hepta_dbcli.Skew.{merge_small_vs_hits}
use hepta_dbcli.Skew.Accounts.{Balances, merge_small_vs_hits-Balances}

abbrev whole_numbers : DecimalOps
whole_numbers = record {
  Number = ℕ;
  parse = parse_u64;
  same = ◌==◌;
  order = order_of;
  show = digits;
}

abbrev small_side : List Row
small_side =
    (integer (pos 1) ∷ string (codes "a") ∷ []) ∷ (integer (pos 2) ∷ string (codes "b") ∷ []) ∷ []

abbrev hits : List Row
hits = (integer (pos 2) ∷ string (codes "c") ∷ []) ∷ []

merge_small_vs_hits-Balances_example :
    Balances true 2 1 100
      (merge_small_vs_hits whole_numbers small_side hits 1 (true ∷ false ∷ []) true 100)
merge_small_vs_hits-Balances_example =
    merge_small_vs_hits-Balances whole_numbers small_side hits 1 (true ∷ false ∷ []) true 100 refl
      (refl, (refl, tt)) (refl, tt)
