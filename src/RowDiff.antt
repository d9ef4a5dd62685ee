-- ===== src/RowDiff.antt =====
-- Row comparison and the merge of two paged scans, dbcli/src/delta_diff/rowdiff.rs.
pub mod Paging
mod Examples
use hepta_dbcli.Prelude.{
  ℕ, zero, suc, ◌+◌, ◌-◌, ◌*◌, ◌^◌, max, min, ltb, leb, ◌==◌, Bool, true, false, not, ◌&&◌, ◌||◌,
  List, [], ◌∷◌, ◌++◌, map, Option, none, some, take, drop, length, if◌then◌else◌,
}
use hepta_dbcli.Prelude.Int.{ℤ, pos, negsuc, ltb_ℤ}
use hepta_dbcli.Decimals.{DecimalOps, Order, less, same_place, greater}
use hepta_dbcli.Text.{Text, codes, text_eq, trim, within}
use hepta_dbcli.Number.{parse_u64, parse_i64, order_of, order_of_ints, order_of_texts}
use hepta_dbcli.Report.{
  Value, null, boolean, integer, decimal, string, nested, Row, DiffKey, single, composite, DiffRow,
  DiffStatus, missing_left, missing_right, modified, value_text,
}

abbrev pub row_key_tuple : Row → ℕ → Row
row_key_tuple row arity = take (min arity (length row)) row

abbrev int_in_i64 : ℤ → Option ℤ
int_in_i64 (pos n) = if ltb n (2 ^ 63) then some (pos n) else none
int_in_i64 (negsuc n) = if ltb n (2 ^ 63) then some (negsuc n) else none

abbrev pub as_i64 : Value → Option ℤ
unfolding parse_i64
as_i64 (integer z) = int_in_i64 z
as_i64 (string s) = parse_i64 (trim s)
as_i64 _ = none

abbrev pub as_u64 : Value → Option ℕ
unfolding parse_u64
as_u64 (integer (pos n)) = some n
as_u64 (string s) = parse_u64 (trim s)
as_u64 _ = none

abbrev lower : ℕ → ℕ
lower c = if within 65 90 c then c + 32 else c

-- `value.trim().eq_ignore_ascii_case("nan")`
abbrev pub is_nan : Text → Bool
unfolding text_eq
is_nan t = text_eq (map lower (trim t)) (codes "nan")

module _ (ops : DecimalOps) where
  abbrev pub cmp_decimals : Text → Text → Option ops.Number → Option ops.Number → Order
  unfolding order_of_texts
  cmp_decimals s t (some a) (some b) = ops.order a b
  cmp_decimals s t _ _ = order_of_texts s t

  abbrev pub cmp_texts : Text → Text → Order
  unfolding is_nan cmp_decimals
  cmp_texts s t =
      if is_nan s || is_nan t
      then less
      else cmp_decimals s t (ops.parse (trim s)) (ops.parse (trim t))

  abbrev pub cmp_u64 : Text → Text → Option ℕ → Option ℕ → Order
  unfolding cmp_texts
  cmp_u64 s t (some a) (some b) = order_of a b
  cmp_u64 s t _ _ = cmp_texts s t

  abbrev pub cmp_i64 : Value → Value → Option ℤ → Option ℤ → Order
  unfolding cmp_u64 as_u64 value_text
  cmp_i64 l r (some a) (some b) = order_of_ints a b
  cmp_i64 l r _ _ = cmp_u64 (value_text l) (value_text r) (as_u64 l) (as_u64 r)

  unfoldable pub cmp_value : Value → Value → Bool → Order
  unfolding cmp_i64 as_i64 value_text order_of_texts
  cmp_value l r true = cmp_i64 l r (as_i64 l) (as_i64 r)
  cmp_value l r false = order_of_texts (value_text l) (value_text r)

  abbrev pub then_order : Order → Order → Order
  then_order same_place o = o
  then_order o p = o

  -- The loop runs over the shorter of the keys, and the lengths decide behind it.
  unfoldable pub cmp_key : Row → Row → List Bool → Order
  unfolding cmp_value
  cmp_key [] [] flags = same_place
  cmp_key [] (r ∷ rs) flags = less
  cmp_key (l ∷ ls) [] flags = greater
  cmp_key (l ∷ ls) (r ∷ rs) [] = then_order (cmp_value l r false) (cmp_key ls rs [])
  cmp_key (l ∷ ls) (r ∷ rs) (f ∷ fs) = then_order (cmp_value l r f) (cmp_key ls rs fs)

  abbrev is_same : Order → Bool
  is_same same_place = true
  is_same _ = false

  unfoldable pub values_equal : Value → Value → Bool → Bool
  unfolding cmp_value
  values_equal l r numeric = is_same (cmp_value l r numeric)

  -- Equal lengths, and all the values equal.
  unfoldable pub row_values_equal : Row → Row → List Bool → Bool
  unfolding values_equal
  row_values_equal [] [] [] = true
  row_values_equal (l ∷ ls) (r ∷ rs) (f ∷ fs) = values_equal l r f && row_values_equal ls rs fs
  row_values_equal _ _ _ = false

abbrev first_or_null : Row → Value
first_or_null [] = null
first_or_null (v ∷ vs) = v

abbrev pub diff_key : Row → ℕ → DiffKey
diff_key row arity =
    if leb arity 1 then single (first_or_null row) else composite (row_key_tuple row arity)

abbrev pub diff_row_n : Row → ℕ → Bool → DiffStatus → DiffRow
diff_row_n row arity is_left status = record {
  key = diff_key row arity;
  left = if is_left then some row else none;
  right = if is_left then none else some row;
  status = status;
  confirmed = true;
}

abbrev pub modified_row : Row → Row → ℕ → DiffRow
modified_row lrow rrow arity = record {
  key = diff_key lrow arity;
  left = some lrow;
  right = some rrow;
  status = modified;
  confirmed = true;
}
