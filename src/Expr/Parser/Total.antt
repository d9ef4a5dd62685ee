-- ===== src/Expr/Parser/Total.antt =====
-- The methods of the parser of dbcli/src/synth/expr.rs that call one another, and `parse_node`.
use hepta_dbcli.Prelude.{
  ℕ, zero, suc, ◌≤◌, ◌<◌, ◌&&◌, [], ◌∷◌, length, arith, Option-cases, inl, inr, if-cases,
}
use hepta_dbcli.Decimals.{DecimalOps}
use hepta_dbcli.Text.{Text, codes, text_eq}
use hepta_dbcli.Expr.{
  Returns, Returns->>=, Returns-weaken, find_spec, Token, Node, known_functions, WellFormed,
  WellFormedArgs,
}
use hepta_dbcli.Expr.Lex.{lex, utf8_length}
use hepta_dbcli.Expr.Lex.Total.{lex-Returns}
use hepta_dbcli.Expr.Parser.{
  Tokens, Reader, advanced, next_is, reject_suffix, expect, checked_call, arguments, argument_list,
  parse_call, after_ident, group, parse_primary, parse_unary, parse_mul, parse_add, compared,
  parse_cmp, parse_and, parse_or_with, parse_or, no_trailing, parse_node, column_after_parent,
  primary_token, first_cmp,
}
use hepta_dbcli.Expr.Operators.{
  or_op, and_op, add_op, mul_op, is_minus, is_comma, is_r_paren, is_l_paren, is_dot,
}
use hepta_dbcli.Expr.Parser.Reads.{
  Reads, Keeps, level-Reads, reject_suffix-Keeps, expect-Returns, column_after_parent-Keeps,
  checked_call-Keeps, length-advanced,
}

module _ (ops : DecimalOps) (end : ℕ) where
  module _ (expr : Reader ops end (Node ops.Number)) (bound : ℕ)
      (reads : Reads ops end bound expr) where
    arguments-Keeps :
        (fuel : ℕ) (ts : Tokens ops end)
        → length ts < fuel
        → length ts < bound
        → Returns
            (λ r. WellFormedArgs r.0 × (length r.1 ≤ length ts))
            (arguments ops end expr fuel ts)
    unfolding arguments WellFormed
    arguments-Keeps zero ts h k = absurd (omega arith)
    arguments-Keeps (suc fuel) ts h k = Returns->>= _ _ (expr ts) _ (reads ts k) λ r _ good.
        if-cases (Returns (λ q. WellFormedArgs q.0 × (length q.1 ≤ length ts)))
          (next_is ops end is_comma r.1)
          (λ _.
            Returns->>= _ _ (arguments ops end expr fuel (advanced ops end r.1)) _
              (arguments-Keeps fuel (advanced ops end r.1)
                (omega (arith, length-advanced ops end r.1))
                (omega (arith, length-advanced ops end r.1)))
              λ more _ kept. ((good.0, kept.0), omega (arith, length-advanced ops end r.1)))
          (λ _.
            Returns->>= (λ (rest : Tokens ops end). length rest < length r.1) _
              (expect ops end is_r_paren (codes "`)` to close the argument list") r.1) _
              (expect-Returns ops end is_r_paren (codes "`)` to close the argument list") r.1)
              λ rest _ shorter. ((good.0, tt), omega arith))

    argument_list-Keeps :
        (ts : Tokens ops end)
        → length ts < bound
        → Returns
            (λ r. WellFormedArgs r.0 × (length r.1 ≤ length ts))
            (argument_list ops end expr ts)
    unfolding argument_list WellFormed
    argument_list-Keeps ts k =
        if-cases (Returns (λ r. WellFormedArgs r.0 × (length r.1 ≤ length ts)))
          (next_is ops end is_r_paren ts) (λ _. (tt, length-advanced ops end ts))
          (λ _. arguments-Keeps (suc (length ts)) ts (omega arith) k)

    parse_call-Keeps :
        (name : Text) (ts : Tokens ops end)
        → length ts < bound
        → Keeps ops end ts (parse_call ops end expr name ts)
    unfolding parse_call
    parse_call-Keeps name ts k = elim (Option-cases (find_spec name known_functions)) [
      | inl e ↦ rw (e, parse_call) tt
      | inr (spec, e) ↦
          rw (e, parse_call)
            (Returns->>= _ _ (argument_list ops end expr (advanced ops end ts)) _
              (argument_list-Keeps (advanced ops end ts)
                (omega (arith, length-advanced ops end ts)))
              λ r _ kept.
                Returns-weaken _ _ (checked_call ops end spec name r.0 r.1)
                  (λ q good. (good.0, omega (arith, length-advanced ops end ts)))
                  (checked_call-Keeps ops end spec name r.0 r.1 e kept.0))
    ]

    after_ident-Keeps :
        (name : Text) (ts : Tokens ops end)
        → length ts < bound
        → Keeps ops end ts (after_ident ops end expr name ts)
    unfolding after_ident WellFormed
    after_ident-Keeps name ts k =
        if-cases (Keeps ops end ts) (next_is ops end is_l_paren ts)
          (λ _. parse_call-Keeps name ts k)
          (λ _.
            if-cases (Keeps ops end ts) (text_eq name (codes "parent") && next_is ops end is_dot ts)
              (λ _.
                Returns-weaken _ _ (column_after_parent ops end (advanced ops end ts))
                  (λ r kept. (kept.0, omega (arith, length-advanced ops end ts)))
                  (column_after_parent-Keeps ops end (advanced ops end ts)))
              (λ _. reject_suffix-Keeps ops end name ts _ tt))

    group-Keeps :
        (ts : Tokens ops end) → length ts < bound → Keeps ops end ts (group ops end expr ts)
    unfolding group
    group-Keeps ts k = Returns->>= _ _ (expr ts) _ (reads ts k) λ r _ good.
        Returns->>= _ _ (expect ops end is_r_paren (codes "`)` to close the group") r.1) _
          (expect-Returns ops end is_r_paren (codes "`)` to close the group") r.1)
          λ rest _ shorter.
            Returns-weaken _ _ (reject_suffix ops end (codes "(...)") rest r.0)
              (λ q kept. (kept.0, omega arith))
              (reject_suffix-Keeps ops end (codes "(...)") rest r.0 good.0)

    primary_token-Keeps :
        (t : Token ops.Number) (p : ℕ) (ts : Tokens ops end)
        → length ts < bound
        → Keeps ops end ts (primary_token ops end expr t p ts)
    unfolding primary_token WellFormed
    primary_token-Keeps (Token.number v) p ts k = (tt, omega arith)
    primary_token-Keeps (Token.str t) p ts k = (tt, omega arith)
    primary_token-Keeps (Token.ident name) p ts k = after_ident-Keeps name ts k
    primary_token-Keeps Token.l_paren p ts k = group-Keeps ts k
    primary_token-Keeps _ p ts k = tt

    parse_primary-Reads : Reads ops end (suc bound) (parse_primary ops end expr)
    unfolding parse_primary
    parse_primary-Reads [] k = tt
    parse_primary-Reads (s ∷ ts) k =
        Returns-weaken _ _ (primary_token ops end expr s.token s.position ts)
          (λ q kept. (kept.0, omega arith))
          (primary_token-Keeps s.token s.position ts (omega arith))

    parse_unary-Reads : Reads ops end (suc bound) (parse_unary ops end expr)
    unfolding parse_unary WellFormed
    parse_unary-Reads [] k = parse_primary-Reads [] k
    parse_unary-Reads (s ∷ ts) k =
        if-cases (Returns (λ r. WellFormed r.0 × (length r.1 < length (s ∷ ts)))) (is_minus s.token)
          (λ _.
            Returns->>= _ _ (parse_unary ops end expr ts) _ (parse_unary-Reads ts (omega arith))
              λ r _ good. (good.0, omega arith))
          (λ _. parse_primary-Reads (s ∷ ts) k)

    parse_add-Reads : Reads ops end (suc bound) (parse_add ops end expr)
    unfolding parse_add parse_mul
    parse_add-Reads =
        level-Reads ops end add_op _ (suc bound)
          (level-Reads ops end mul_op _ (suc bound) parse_unary-Reads)

    compared-Keeps :
        (left : Node ops.Number) (ts : Tokens ops end)
        → WellFormed left
        → length ts < suc bound
        → Keeps ops end ts (compared ops end expr left ts)
    unfolding compared WellFormed
    compared-Keeps left ts wf k = elim (Option-cases (first_cmp ops end expr ts)) [
      | inl e ↦ rw (e, compared) (wf, omega arith)
      | inr (op, e) ↦
          rw (e, compared)
            (Returns->>= _ _ (parse_add ops end expr (advanced ops end ts)) _
              (parse_add-Reads (advanced ops end ts) (omega (arith, length-advanced ops end ts)))
              λ r _ good. ((wf, good.0), omega (arith, length-advanced ops end ts)))
    ]

    parse_cmp-Reads : Reads ops end (suc bound) (parse_cmp ops end expr)
    unfolding parse_cmp
    parse_cmp-Reads ts k =
        Returns->>= _ _ (parse_add ops end expr ts) _ (parse_add-Reads ts k) λ r _ good.
          Returns-weaken _ _ (compared ops end expr r.0 r.1) (λ q kept. (kept.0, omega arith))
            (compared-Keeps r.0 r.1 good.0 (omega arith))

    parse_or_with-Reads : Reads ops end (suc bound) (parse_or_with ops end expr)
    unfolding parse_or_with parse_and
    parse_or_with-Reads =
        level-Reads ops end or_op _ (suc bound)
          (level-Reads ops end and_op _ (suc bound) parse_cmp-Reads)

  parse_or-Reads : (fuel : ℕ) → Reads ops end fuel (parse_or ops end fuel)
  unfolding parse_or
  parse_or-Reads zero ts k = absurd (omega arith)
  parse_or-Reads (suc fuel) ts k =
      parse_or_with-Reads (parse_or ops end fuel) fuel (parse_or-Reads fuel) ts k

  no_trailing-Returns :
      (n : Node ops.Number) (ts : Tokens ops end)
      → WellFormed n
      → Returns WellFormed (no_trailing ops end (n, ts))
  unfolding no_trailing
  no_trailing-Returns n [] wf = wf
  no_trailing-Returns n (s ∷ ts) wf = tt

-- On every text the parser ends with an error or a tree, never with a panic; and in the tree every call
-- is of a known function, with a number of arguments that it takes.
pub parse_node-WellFormed :
    (ops : DecimalOps) (src : Text) → Returns WellFormed (parse_node ops src)
unfolding parse_node
parse_node-WellFormed ops src = Returns->>= _ _ (lex ops src) _ (lex-Returns ops src) λ tokens _ _.
    Returns->>= _ _ (parse_or ops (utf8_length src) (suc (length tokens)) tokens) _
      (parse_or-Reads ops (utf8_length src) (suc (length tokens)) tokens (omega arith))
      λ r _ good. no_trailing-Returns ops (utf8_length src) r.0 r.1 good.0
