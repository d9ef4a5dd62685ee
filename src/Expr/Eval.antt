-- ===== src/Expr/Eval.antt =====
-- Evaluation: `eval` and what it calls, and the entry points of `Expr` of dbcli/src/synth/expr.rs.
pub mod Values
pub mod Types
pub mod Columns
use hepta_dbcli.Prelude.{
  ℕ, zero, suc, ◌+◌, ◌-◌, ◌^◌, min, leb, ◌==◌, Bool, true, false, not, ◌&&◌, List, [], ◌∷◌, ◌++◌,
  Option, none, some, length, take, drop, if◌then◌else◌,
}
use hepta_dbcli.Decimals.{DecimalOps, Order, less, same_place, greater}
use hepta_dbcli.Number.{order_of_texts}
use hepta_dbcli.Text.{Text, codes, text_eq, one_of, starts_with}
use hepta_dbcli.Report
use hepta_dbcli.Report.{int_text, digits, join, text_le}
use hepta_dbcli.TextSet.{set_insert}
use hepta_dbcli.Expr.{
  ExprError, Result, ok, err, panic, out_of_fuel, ◌>>=◌, ArithOp, arith_symbol, CmpOp, cmp_symbol,
  Node, Nodes, nil, cons, known_function_names, known_functions,
}
use hepta_dbcli.Expr.Operands.{
  ArithOps, Value, null, bool, number, str, kind, is_literal, compare_values, as_number, cell,
  string_arg, arith_values, count_arg,
}

usize_max : ℕ
usize_max = 2 ^ 64 - 1

module _ {N : Type 0} where
  -- The value of an argument; behind the last one an index panics.
  abbrev pub arg : ℕ → List (Result (Value N)) → Result (Value N)
  arg i [] = panic
  arg zero (r ∷ rs) = r
  arg (suc i) (r ∷ rs) = arg i rs

  -- A condition's value.
  unfoldable pub truth : Value N → Result Bool
  truth (bool b) = ok b
  truth v = err (ExprError.non_boolean_predicate (kind v))

  -- Only the branch that is selected is looked at.
  unfoldable pub eval_if : List (Result (Value N)) → Result (Value N)
  unfolding truth digits
  eval_if (c ∷ t ∷ e ∷ []) = c >>= truth >>= λ b. if b then t else e
  eval_if args = err (
      ExprError.syntax (codes "function `if` expects 3 argument(s), got " ++ digits (length args))
        0)

  abbrev pub concat_value : (Text → Result (Value N)) → Value N → Result (Value N)
  concat_value more (str t) = more t
  concat_value more null = ok null
  concat_value more v = err (ExprError.type_mismatch (codes "concat argument") (kind v))

  unfoldable pub concat_on : Text → List (Result (Value N)) → Result (Value N)
  concat_on out [] = ok (str out)
  concat_on out (r ∷ rs) = r >>= concat_value (λ t. concat_on (out ++ t) rs)

  abbrev pub last_chars : Option Text → Option ℕ → Value N
  last_chars (some t) (some n) = str (drop (length t - min n (length t)) t)
  last_chars _ _ = null

  abbrev pub first_chars : Option Text → Option ℕ → Value N
  first_chars (some t) (some n) = str (take n t)
  first_chars _ _ = null

  abbrev pub chars_from : Option Text → Option ℕ → Option ℕ → Value N
  chars_from (some t) (some start) (some len) = str (take len (drop (start - 1) t))
  chars_from _ _ _ = null

unfoldable unknown_function : Text → ExprError
unknown_function name =
    ExprError.syntax
      (codes "function `"
        ++ name
        ++ codes "` is not permitted; known functions: "
        ++ join (codes ", ") (known_function_names known_functions))
      0

module _ (ops : DecimalOps) (sums : ArithOps ops) where
  abbrev ResultList : Type 0
  ResultList = List (Result (Value ops.Number))

  unfoldable pub eval_right : ResultList → Result (Value ops.Number)
  unfolding string_arg count_arg
  eval_right args = do
    t ← arg 0 args >>= string_arg ops
    n ← arg 1 args >>= count_arg ops sums
    ok (last_chars t n)

  unfoldable pub eval_left : ResultList → Result (Value ops.Number)
  unfolding string_arg count_arg
  eval_left args = do
    t ← arg 0 args >>= string_arg ops
    n ← arg 1 args >>= count_arg ops sums
    ok (first_chars t n)

  -- `args.get(2)`
  abbrev pub length_arg : ResultList → Result (Option ℕ)
  unfolding count_arg usize_max
  length_arg (a ∷ b ∷ c ∷ rest) = c >>= count_arg ops sums
  length_arg _ = ok (some usize_max)

  unfoldable pub eval_substr : ResultList → Result (Value ops.Number)
  unfolding string_arg count_arg length_arg
  eval_substr args = do
    t ← arg 0 args >>= string_arg ops
    start ← arg 1 args >>= count_arg ops sums
    len ← length_arg args
    ok (chars_from t start len)

  -- The arguments come as what the evaluation of each gives; the program evaluates an argument where
  -- its value is looked at.
  unfoldable pub eval_string_call : Text → ResultList → Result (Value ops.Number)
  unfolding text_eq concat_on eval_right eval_left eval_substr unknown_function
  eval_string_call name args =
      if text_eq name (codes "concat")
      then concat_on [] args
      else if text_eq name (codes "right")
      then eval_right args
      else if text_eq name (codes "left")
      then eval_left args
      else if text_eq name (codes "substr")
      then eval_substr args
      else err (unknown_function name)

  unfoldable pub eval_call : Text → ResultList → Result (Value ops.Number)
  unfolding text_eq eval_if eval_string_call
  eval_call name args =
      if text_eq name (codes "if") then eval_if args else eval_string_call name args

  unfoldable pub negate_value : Value ops.Number → Result (Value ops.Number)
  negate_value (number n) = ok (number (sums.negated n))
  negate_value null = ok null
  negate_value v = err (ExprError.type_mismatch (codes "negate") (kind v))

  module _ (lookup : Text → Option Report.Value) where
    unfoldable mutual
      unfolding arith_values compare_values as_number truth cell negate_value eval_call

      pub eval : Node ops.Number → Result (Value ops.Number)
      eval (Node.number n) = ok (number n)
      eval (Node.str t) = ok (str t)
      eval (Node.column name) = cell ops (lookup name)
      eval (Node.negate n) = eval n >>= negate_value
      eval (Node.arith op l r) = eval l >>= λ a. eval r >>= λ b. arith_values ops sums op a b
      eval (Node.compare op l r) = eval l >>= λ a. eval r >>= λ b.
          let b' = as_number ops a (is_literal r) b in
          compare_values ops op (as_number ops b' (is_literal l) a) b'
      eval (Node.and l r) =
          let right = eval r >>= truth >>= λ b. ok (bool b) in
          eval l >>= truth >>= λ a. if a then right else ok (bool false)
      eval (Node.or l r) =
          let right = eval r >>= truth >>= λ b. ok (bool b) in
          eval l >>= truth >>= λ a. if a then ok (bool true) else right
      eval (Node.call name args) = eval_call name (eval_args args)

      pub eval_args : Nodes ops.Number → List (Result (Value ops.Number))
      eval_args nil = []
      eval_args (cons n ns) = eval n ∷ eval_args ns

    unfoldable pub eval_bool : Node ops.Number → Result Bool
    unfolding eval truth
    eval_bool n = eval n >>= truth

    unfoldable pub as_text : Value ops.Number → Result Text
    as_text (str t) = ok t
    as_text null = err ExprError.null_result
    as_text v = err (ExprError.type_mismatch (codes "string result") (kind v))

    unfoldable pub eval_str : Node ops.Number → Result Text
    unfolding eval as_text
    eval_str n = eval n >>= as_text

    unfoldable pub as_decimal : Value ops.Number → Result ops.Number
    as_decimal (number n) = ok n
    as_decimal null = err ExprError.null_result
    as_decimal v = err (ExprError.type_mismatch (codes "decimal result") (kind v))

    unfoldable pub eval_decimal : Node ops.Number → Result ops.Number
    unfolding eval as_decimal
    eval_decimal n = eval n >>= as_decimal
