-- ===== src/Decimals.antt =====
-- The decimal numbers of the crate `rust_decimal`, which the program reads and compares but does not
-- define: a parameter of the definitions that use them.
use hepta_dbcli.Prelude.{Bool, Option}
use hepta_dbcli.Prelude.Assoc.{IsEquivTest}
use hepta_dbcli.Text.{Text}

-- `std::cmp::Ordering`
pub data Order : Type 0 where
  less : Order
  same_place : Order
  greater : Order

pub record DecimalOps : Type 1 where
  pub Number : Type 0
  -- `Decimal::from_str(..).ok()`
  pub parse : Text → Option Number
  -- `==`, by value
  pub same : Number → Number → Bool
  -- `partial_cmp`, which always has a result
  pub order : Number → Number → Order
  -- `to_string`, which keeps the scale
  pub show : Number → Text

-- The documented behaviour that is relied on: `==` on decimals is an equivalence.
abbrev pub IsDecimal : DecimalOps → Type 0
IsDecimal ops = IsEquivTest ops.same
