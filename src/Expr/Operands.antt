-- ===== src/Expr/Operands.antt =====
-- The values of dbcli/src/synth/expr.rs, their comparison and arithmetic, and what a function reads
-- from an argument.
use hepta_dbcli.Prelude.{ℕ, Bool, true, false, not, Option, none, some, if◌then◌else◌}
use hepta_dbcli.Decimals.{DecimalOps, Order, less, same_place, greater}
use hepta_dbcli.Number.{order_of_texts}
use hepta_dbcli.Text.{Text, codes, starts_with}
use hepta_dbcli.Report
use hepta_dbcli.Report.{int_text, digits, join, text_le}
use hepta_dbcli.Expr.{
  ExprError, Result, ok, err, ◌>>=◌, ArithOp, arith_symbol, CmpOp, cmp_symbol, Node,
}

-- The operations of `rust_decimal` that evaluation calls besides reading and comparing.
pub record ArithOps (ops : DecimalOps) : Type 0 where
  pub negated : ops.Number → ops.Number
  pub checked_add : ops.Number → ops.Number → Option ops.Number
  pub checked_sub : ops.Number → ops.Number → Option ops.Number
  pub checked_mul : ops.Number → ops.Number → Option ops.Number
  pub checked_div : ops.Number → ops.Number → Option ops.Number
  pub checked_rem : ops.Number → ops.Number → Option ops.Number
  -- `usize::try_from(..).ok()`
  pub to_usize : ops.Number → Option ℕ

pub data Value (N : Type 0) : Type 0 where
  null : Value N
  bool : Bool → Value N
  number : N → Value N
  str : Text → Value N

abbrev pub kind : {N : Type 0} → Value N → Text
kind null = codes "null"
kind (bool b) = codes "boolean"
kind (number n) = codes "number"
kind (str t) = codes "string"

-- `Some`, or the error
abbrev pub ok_or {ℓ} : {A : Type ℓ} → Option A → ExprError → Result A
ok_or none e = err e
ok_or (some a) e = ok a

abbrev pub is_literal : {N : Type 0} → Node N → Bool
is_literal (Node.str t) = true
is_literal _ = false

abbrev pub by_order : CmpOp → Order → Bool
by_order CmpOp.eq same_place = true
by_order CmpOp.eq _ = false
by_order CmpOp.ne same_place = false
by_order CmpOp.ne _ = true
by_order CmpOp.lt less = true
by_order CmpOp.lt _ = false
by_order CmpOp.le greater = false
by_order CmpOp.le _ = true
by_order CmpOp.gt greater = true
by_order CmpOp.gt _ = false
by_order CmpOp.ge less = false
by_order CmpOp.ge _ = true

abbrev pub same_bool : Bool → Bool → Bool
same_bool true b = b
same_bool false b = not b

abbrev pub bool_compare : {N : Type 0} → CmpOp → Bool → Bool → Result (Value N)
bool_compare CmpOp.eq a b = ok (bool (same_bool a b))
bool_compare CmpOp.ne a b = ok (bool (not (same_bool a b)))
bool_compare op a b = err (ExprError.type_mismatch (cmp_symbol op) (codes "boolean"))

module _ (ops : DecimalOps) where
  unfoldable pub compare_values :
      CmpOp → Value ops.Number → Value ops.Number → Result (Value ops.Number)
  unfolding order_of_texts
  compare_values op null r = ok (bool false)
  compare_values op l null = ok (bool false)
  compare_values op (number a) (number b) = ok (bool (by_order op (ops.order a b)))
  compare_values op (str a) (str b) = ok (bool (by_order op (order_of_texts a b)))
  compare_values op (bool a) (bool b) = bool_compare op a b
  compare_values op l r = err (ExprError.mixed_type_comparison (kind l) (kind r))

  -- A quoted literal is compared with a number as the number that it reads as, if any.
  unfoldable pub as_number : Value ops.Number → Bool → Value ops.Number → Value ops.Number
  as_number (number a) true (str t) = elim (ops.parse t) [ none ↦ str t | some n ↦ number n ]
  as_number other literal v = v

  abbrev pub number_or : Option ops.Number → Result (Value ops.Number)
  number_or none = err (ExprError.type_mismatch (codes "coerce column value") (codes "number"))
  number_or (some n) = ok (number n)

  abbrev nested_kind : Text → Text
  unfolding starts_with
  nested_kind t = if starts_with (codes "[") t then codes "array" else codes "object"

  unfoldable pub from_json : Report.Value → Result (Value ops.Number)
  unfolding digits starts_with
  from_json Report.null = ok null
  from_json (Report.boolean b) = ok (bool b)
  from_json (Report.integer z) = number_or (ops.parse (int_text z))
  from_json (Report.decimal t) = number_or (ops.parse t)
  from_json (Report.string t) = ok (str t)
  from_json (Report.nested t) =
      err (ExprError.type_mismatch (codes "coerce column value") (nested_kind t))

  -- A column that the row does not know is NULL.
  unfoldable pub cell : Option Report.Value → Result (Value ops.Number)
  unfolding from_json
  cell none = ok null
  cell (some v) = from_json v

  -- The arguments of `right`, `left` and `substr`; `none` is NULL.
  unfoldable pub string_arg : Value ops.Number → Result (Option Text)
  string_arg (str t) = ok (some t)
  string_arg null = ok none
  string_arg v = err (ExprError.type_mismatch (codes "string function argument") (kind v))

  module _ (sums : ArithOps ops) where
    unfoldable pub checked_arith : ArithOp → ops.Number → ops.Number → Result (Value ops.Number)
    checked_arith ArithOp.add a b =
        ok_or (sums.checked_add a b) (ExprError.overflow (codes "+")) >>= λ n. ok (number n)
    checked_arith ArithOp.sub a b =
        ok_or (sums.checked_sub a b) (ExprError.overflow (codes "-")) >>= λ n. ok (number n)
    checked_arith ArithOp.mul a b =
        ok_or (sums.checked_mul a b) (ExprError.overflow (codes "*")) >>= λ n. ok (number n)
    checked_arith ArithOp.div a b =
        ok_or (sums.checked_div a b) (ExprError.division_by_zero (codes "/")) >>= λ n. ok (number n)
    checked_arith ArithOp.rem a b =
        ok_or (sums.checked_rem a b) (ExprError.remainder_by_zero (codes "%")) >>= λ n.
        ok (number n)

    unfoldable pub arith_values :
        ArithOp → Value ops.Number → Value ops.Number → Result (Value ops.Number)
    unfolding checked_arith
    arith_values op (number a) (number b) = checked_arith op a b
    arith_values op null r = ok null
    arith_values op l null = ok null
    arith_values op (number a) r = err (ExprError.type_mismatch (arith_symbol op) (kind r))
    arith_values op l r = err (ExprError.type_mismatch (arith_symbol op) (kind l))

    unfoldable pub count_arg : Value ops.Number → Result (Option ℕ)
    count_arg (number n) =
        ok_or (sums.to_usize n)
          (ExprError.type_mismatch (codes "string function count") (codes "negative number"))
        >>= λ k. ok (some k)
    count_arg null = ok none
    count_arg v = err (ExprError.type_mismatch (codes "string function count") (kind v))
