-- ===== src/Expr/Parser.antt =====
-- The recursive descent of dbcli/src/synth/expr.rs: `Parser` and `parse_node`. The tokens that are left
-- stand for the position in the token list. What a bracket or an argument holds is read by `expr`,
-- which is `parse_or` again.
pub mod Reads
pub mod Total
use hepta_dbcli.Prelude.{
  ℕ, zero, suc, ◌+◌, ◌≤◌, ◌<◌, ltb, leb, ◌==◌, Bool, true, false, not, ◌&&◌, ◌||◌, List, [], ◌∷◌,
  ◌++◌, Option, none, some, length, if◌then◌else◌, ◌≡◌,
}
use hepta_dbcli.Decimals.{DecimalOps}
use hepta_dbcli.Text.{Text, codes, text_eq}
use hepta_dbcli.Report.{digits, join}
use hepta_dbcli.Expr.{
  ExprError, syntax, disallowed, Result, ok, err, panic, out_of_fuel, ◌>>=◌, Token, Spanned,
  token_text, ArithOp, CmpOp, Node, Nodes, nil, cons, count, FunctionSpec, known_functions,
  known_function_names, find_spec, arity_fits, Ty, infer_type,
}
use hepta_dbcli.Expr.Lex.{lex, utf8_length}
use hepta_dbcli.Expr.Operators.{
  Joint, joined, is_minus, is_l_paren, is_r_paren, is_comma, is_dot, cmp_op, or_op, and_op, add_op,
  mul_op, suffix, arity_text, ty_text, clash, branch_types,
}

module _ (ops : DecimalOps) (end : ℕ) where
  abbrev pub Tokens : Type 0
  Tokens = List (Spanned ops.Number)

  -- A method of the parser that reads a node: the node, and the tokens that are left.
  abbrev pub Reader : Type 0 → Type 0
  Reader A = Tokens → Result (A × Tokens)

  abbrev pub position : Tokens → ℕ
  position [] = end
  position (s ∷ ts) = s.position

  abbrev pub shown : Token ops.Number → Text
  unfolding token_text
  shown t = token_text ops.show t

  abbrev pub next_is : (Token ops.Number → Bool) → Tokens → Bool
  next_is p [] = false
  next_is p (s ∷ ts) = p s.token

  abbrev pub advanced : Tokens → Tokens
  advanced [] = []
  advanced (s ∷ ts) = ts

  abbrev found : Tokens → Text
  unfolding shown
  found [] = codes "end of expression"
  found (s ∷ ts) = codes "`" ++ shown s.token ++ codes "`"

  -- `expect`
  unfoldable pub expect : (Token ops.Number → Bool) → Text → Tokens → Result Tokens
  unfolding found
  expect p label ts =
      if next_is p ts
      then ok (advanced ts)
      else err (syntax (codes "expected " ++ label ++ codes ", found " ++ found ts) (position ts))

  abbrev pub first_suffix : Tokens → Option Text
  first_suffix [] = none
  first_suffix (s ∷ ts) = suffix s.token

  unfoldable pub reject_suffix : Text → Tokens → Node ops.Number → Result (Node ops.Number × Tokens)
  reject_suffix base ts n = elim (first_suffix ts) [
    | none ↦ ok (n, ts)
    | some construct ↦ err (disallowed construct base)
  ]

  abbrev pub first_op : (Token ops.Number → Option Joint) → Tokens → Option Joint
  first_op op [] = none
  first_op op (s ∷ ts) = op s.token

  -- A level's loop: operands joined from the left, on fuel that the tokens bound.
  unfoldable pub chain :
      (Token ops.Number → Option Joint)
      → Reader (Node ops.Number)
      → ℕ
      → Node ops.Number
      → Reader (Node ops.Number)
  chain op operand zero left ts = out_of_fuel
  chain op operand (suc fuel) left ts = elim (first_op op ts) [
    | none ↦ ok (left, ts)
    | some join ↦ operand (advanced ts) >>= λ r. chain op operand fuel (joined join left r.0) r.1
  ]

  unfoldable pub level :
      (Token ops.Number → Option Joint) → Reader (Node ops.Number) → Reader (Node ops.Number)
  unfolding chain
  level op operand ts = operand ts >>= λ r. chain op operand (suc (length r.1)) r.0 r.1

  -- A call that has its arguments.
  abbrev pub agree : Text → Tokens → Ty × Ty → Result (Unit {0})
  agree name ts (t, e) =
      if clash t e
      then err (
          syntax
            (codes "function `"
              ++ name
              ++ codes "` branches have different types: "
              ++ ty_text t
              ++ codes " vs "
              ++ ty_text e)
            (position ts))
      else ok tt

  unfoldable pub checked_call :
      FunctionSpec → Text → Nodes ops.Number → Tokens → Result (Node ops.Number × Tokens)
  unfolding arity_fits arity_text branch_types
  checked_call spec name args ts =
      if arity_fits spec (count args)
      then (let branches = branch_types args >>= agree name ts in
          (if text_eq name (codes "if") then branches else ok tt) >>= λ _.
          ok (Node.call spec.name args, ts))
      else err (
          syntax
            (codes "function `"
              ++ name
              ++ codes "` expects "
              ++ arity_text spec.min_args spec.max_args
              ++ codes " argument(s), got "
              ++ digits (count args))
            (position ts))

  unfoldable pub column_token : Token ops.Number → ℕ → Reader (Node ops.Number)
  unfolding reject_suffix shown
  column_token (Token.ident c) p ts =
      reject_suffix (codes "parent." ++ c) ts (Node.column (codes "parent." ++ c))
  column_token t p ts =
      err (syntax (codes "expected a column after `parent.`, found `" ++ shown t ++ codes "`") p)

  unfoldable pub column_after_parent : Reader (Node ops.Number)
  unfolding column_token
  column_after_parent [] =
      err (syntax (codes "unexpected end of expression; expected a column after `parent.`") end)
  column_after_parent (s ∷ ts) = column_token s.token s.position ts

  module _ (expr : Reader (Node ops.Number)) where
    -- The arguments behind the opening bracket, on fuel that the tokens bound.
    unfoldable pub arguments : ℕ → Reader (Nodes ops.Number)
    unfolding expect
    arguments zero ts = out_of_fuel
    arguments (suc fuel) ts = expr ts >>= λ r.
        if next_is is_comma r.1
        then (arguments fuel (advanced r.1) >>= λ more. ok (cons r.0 more.0, more.1))
        else (expect is_r_paren (codes "`)` to close the argument list") r.1 >>= λ ts'.
            ok (cons r.0 nil, ts'))

    unfoldable pub argument_list : Reader (Nodes ops.Number)
    unfolding arguments
    argument_list ts =
        if next_is is_r_paren ts then ok (nil, advanced ts) else arguments (suc (length ts)) ts

    unfoldable pub parse_call : Text → Reader (Node ops.Number)
    unfolding find_spec argument_list checked_call
    parse_call name ts = elim (find_spec name known_functions) [
      | none ↦ err (
          syntax
            (codes "function `"
              ++ name
              ++ codes "` is not permitted; known functions: "
              ++ join (codes ", ") (known_function_names known_functions))
            (position ts))
      | some spec ↦ argument_list (advanced ts) >>= λ r. checked_call spec name r.0 r.1
    ]

    unfoldable pub after_ident : Text → Reader (Node ops.Number)
    unfolding parse_call column_after_parent reject_suffix text_eq
    after_ident name ts =
        if next_is is_l_paren ts
        then parse_call name ts
        else if text_eq name (codes "parent") && next_is is_dot ts
        then column_after_parent (advanced ts)
        else reject_suffix name ts (Node.column name)

    unfoldable pub group : Reader (Node ops.Number)
    unfolding expect reject_suffix
    group ts = expr ts >>= λ r. expect is_r_paren (codes "`)` to close the group") r.1 >>= λ ts'.
        reject_suffix (codes "(...)") ts' r.0

    unfoldable pub primary_token : Token ops.Number → ℕ → Reader (Node ops.Number)
    unfolding after_ident group shown
    primary_token (Token.number v) p ts = ok (Node.number v, ts)
    primary_token (Token.str t) p ts = ok (Node.str t, ts)
    primary_token (Token.ident name) p ts = after_ident name ts
    primary_token Token.l_paren p ts = group ts
    primary_token t p ts = err (
        syntax
          (codes "unexpected token `"
            ++ shown t
            ++ codes "`; expected a value, column, number, string, or `(...)`")
          p)

    unfoldable pub parse_primary : Reader (Node ops.Number)
    unfolding primary_token
    parse_primary [] = err (
        syntax
          (codes
            "unexpected end of expression; expected a value, column, number, string, or `(...)`")
          end)
    parse_primary (s ∷ ts) = primary_token s.token s.position ts

    unfoldable pub parse_unary : Reader (Node ops.Number)
    unfolding parse_primary
    parse_unary [] = parse_primary []
    parse_unary (s ∷ ts) =
        let inner = parse_unary ts >>= λ r. ok (Node.negate r.0, r.1) in
        if is_minus s.token then inner else parse_primary (s ∷ ts)

    unfoldable pub parse_mul : Reader (Node ops.Number)
    unfolding level parse_unary
    parse_mul = level mul_op parse_unary

    unfoldable pub parse_add : Reader (Node ops.Number)
    unfolding level parse_mul
    parse_add = level add_op parse_mul

    abbrev pub first_cmp : Tokens → Option CmpOp
    first_cmp [] = none
    first_cmp (s ∷ ts) = cmp_op s.token

    unfoldable pub compared : Node ops.Number → Reader (Node ops.Number)
    unfolding parse_add
    compared left ts = elim (first_cmp ts) [
      | none ↦ ok (left, ts)
      | some op ↦ parse_add (advanced ts) >>= λ r. ok (Node.compare op left r.0, r.1)
    ]

    unfoldable pub parse_cmp : Reader (Node ops.Number)
    unfolding parse_add compared
    parse_cmp ts = parse_add ts >>= λ r. compared r.0 r.1

    unfoldable pub parse_and : Reader (Node ops.Number)
    unfolding level parse_cmp
    parse_and = level and_op parse_cmp

    unfoldable pub parse_or_with : Reader (Node ops.Number)
    unfolding level parse_and
    parse_or_with = level or_op parse_and

  -- One unit of fuel for each depth of brackets, which the tokens bound.
  unfoldable pub parse_or : ℕ → Reader (Node ops.Number)
  unfolding parse_or_with
  parse_or zero ts = out_of_fuel
  parse_or (suc fuel) ts = parse_or_with (parse_or fuel) ts

  unfoldable pub no_trailing : Node ops.Number × Tokens → Result (Node ops.Number)
  unfolding shown
  no_trailing (n, []) = ok n
  no_trailing (n, s ∷ ts) = err (
      syntax
        (codes "unexpected trailing token `"
          ++ shown s.token
          ++ codes "`; expression must end here")
        s.position)

unfoldable pub parse_node : (ops : DecimalOps) → Text → Result (Node ops.Number)
unfolding lex parse_or no_trailing
parse_node ops src = do
  tokens ← lex ops src
  r ← parse_or ops (utf8_length src) (suc (length tokens)) tokens
  no_trailing ops (utf8_length src) r
