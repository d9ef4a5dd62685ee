-- ===== src/Expr/Examples.antt =====
-- Expressions lexed, parsed and evaluated, and the theorems at concrete inputs.
use hepta_dbcli.Prelude.{
  ℕ, ◌+◌, ◌-◌, ◌*◌, ◌/◌, ◌%◌, ◌==◌, Bool, true, false, List, [], ◌∷◌, Option, none, some, ◌≡◌, refl,
  if◌then◌else◌, arith, ◌||◌,
}
use mathlib.Core.Path.{subst}
use hepta_dbcli.Prelude.Int.{pos}
use hepta_dbcli.Decimals.{DecimalOps, same_place}
use hepta_dbcli.Number.{parse_u64, order_of}
use hepta_dbcli.Report.{digits, Value, integer, string}
use hepta_dbcli.Text.{Text, codes, is_word, text_eq, one_of}
use hepta_dbcli.Text.Laws.{text_eq_iff}
use hepta_dbcli.Expr.{
  ok, ◌>>=◌, Returns, Spanned, Node, CmpOp, ArithOp, nil, cons, WellFormed, find_spec, arity_fits,
  fixed_arity, infer_type,
}
use hepta_dbcli.Expr.Lex.{lex}
use hepta_dbcli.Expr.Parser.{parse_node}
use hepta_dbcli.Expr.Parser.Total.{parse_node-WellFormed}
use hepta_dbcli.Expr.Eval.{eval}
use hepta_dbcli.Expr.Operands.{ArithOps, number}
use hepta_dbcli.Expr.Referenced.{check_columns}
use hepta_dbcli.Expr.Eval.Values.{HasType}
use hepta_dbcli.Expr.Eval.Types.{eval-HasType}
use hepta_dbcli.Expr.Eval.Columns.{eval-check_columns}

-- Whole numbers in place of decimals.
abbrev whole : DecimalOps
whole = record {
  Number = ℕ;
  parse = parse_u64;
  same = λ a b. elim (order_of a b) [ same_place ↦ true | _ ↦ false ];
  order = order_of;
  show = digits;
}

abbrev positions : {N : Type 0} → List (Spanned N) → List ℕ
positions [] = []
positions (t ∷ ts) = t.position ∷ positions ts

lexed :
    (lex whole (codes "if(a >= 'é', parent.b_1*12, 7)") >>= λ ts. ok (positions ts))
    ≡ ok (0 ∷ 2 ∷ 3 ∷ 5 ∷ 8 ∷ 12 ∷ 14 ∷ 20 ∷ 21 ∷ 24 ∷ 25 ∷ 27 ∷ 29 ∷ 30 ∷ [])
unfolding lex parse_u64 is_word
lexed = refl

-- `1 + 2 * a == 7 && !...` groups as the precedences say.
parsed :
    parse_node whole (codes "a + 2 * b == 7 || f && -g")
    ≡ ok (
        Node.or
          (Node.compare CmpOp.eq
            (Node.arith ArithOp.add
              (Node.column (codes "a"))
              (Node.arith ArithOp.mul (Node.number 2) (Node.column (codes "b"))))
            (Node.number 7))
          (Node.and (Node.column (codes "f")) (Node.negate (Node.column (codes "g")))))
unfolding parse_node parse_u64 is_word
parsed = refl

-- No overflow; division as the source's, by zero an error.
abbrev whole_sums : ArithOps whole
whole_sums = record {
  negated = λ a. a;
  checked_add = λ a b. some (a + b);
  checked_sub = λ a b. some (a - b);
  checked_mul = λ a b. some (a * b);
  checked_div = λ a b. if b == 0 then none else some (a / b);
  checked_rem = λ a b. if b == 0 then none else some (a % b);
  to_usize = λ a. some a;
}

abbrev price_row : Text → Option Value
price_row t = if text_eq t (codes "price") then some (integer (pos 7)) else none

abbrev price_and_note : Text → Option Value
price_and_note t =
    if text_eq t (codes "price") then some (integer (pos 7)) else some (string (codes "x"))

-- `if(price >= 5, price * 2, 1 / 0)`
abbrev guarded : Node ℕ
guarded = Node.call (codes "if") (
    cons (Node.compare CmpOp.ge (Node.column (codes "price")) (Node.number 5)) (
      cons (Node.arith ArithOp.mul (Node.column (codes "price")) (Node.number 2))
        (cons (Node.arith ArithOp.div (Node.number 1) (Node.number 0)) nil)))

guarded-WellFormed : WellFormed guarded
unfolding WellFormed find_spec arity_fits
guarded-WellFormed =
    (fixed_arity (codes "if") 3, refl, refl, ((tt, tt), ((tt, tt), ((tt, tt), tt))))

guarded_value : eval whole whole_sums price_row guarded ≡ ok (number 14)
unfolding eval parse_u64 digits text_eq
guarded_value = refl

parse_node-WellFormed_example :
    Returns WellFormed (parse_node whole (codes "if(price >= 5, price * 2, left(1))"))
parse_node-WellFormed_example =
    parse_node-WellFormed whole (codes "if(price >= 5, price * 2, left(1))")

eval-HasType_example :
    Returns (HasType (infer_type guarded)) (eval whole whole_sums price_row guarded)
eval-HasType_example = eval-HasType whole whole_sums price_row guarded guarded-WellFormed

guarded_columns : check_columns guarded (codes "price" ∷ []) ≡ ok tt
unfolding check_columns one_of
guarded_columns = refl

first_side : (b : Bool) → (b || false) ≡ true → b ≡ true
first_side b h = ground arith

only_price : (t : Text) → one_of t (codes "price" ∷ []) ≡ true → price_row t ≡ price_and_note t
unfolding one_of text_eq
only_price t h =
    subst (λ (x : Text). price_row x ≡ price_and_note x)
      ((text_eq_iff (codes "price") t).0 (first_side (text_eq (codes "price") t) h)) refl

eval-check_columns_example :
    eval whole whole_sums price_row guarded ≡ eval whole whole_sums price_and_note guarded
eval-check_columns_example =
    eval-check_columns whole whole_sums guarded (codes "price" ∷ []) price_row price_and_note
      guarded_columns only_price
