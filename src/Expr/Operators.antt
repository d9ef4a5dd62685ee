-- ===== src/Expr/Operators.antt =====
-- What the tokens mean to the parser of dbcli/src/synth/expr.rs, and the texts and types of its
-- errors.
use hepta_dbcli.Prelude.{ℕ, ◌==◌, Bool, true, false, ◌++◌, Option, none, some, if◌then◌else◌}
use hepta_dbcli.Text.{Text, codes}
use hepta_dbcli.Report.{digits}
use hepta_dbcli.Expr.{Result, ok, panic, Token, ArithOp, CmpOp, Node, Nodes, cons, Ty, infer_type}

-- What joins two operands from the left.
pub data Joint : Type 0 where
  or and : Joint
  arith : ArithOp → Joint

abbrev pub joined : {N : Type 0} → Joint → Node N → Node N → Node N
joined Joint.or l r = Node.or l r
joined Joint.and l r = Node.and l r
joined (Joint.arith op) l r = Node.arith op l r

-- The tests of `eat`.
module _ {N : Type 0} where
  abbrev pub is_or : Token N → Bool
  is_or Token.or_or = true
  is_or _ = false

  abbrev pub is_and : Token N → Bool
  is_and Token.and_and = true
  is_and _ = false

  abbrev pub is_minus : Token N → Bool
  is_minus Token.minus = true
  is_minus _ = false

  abbrev pub is_l_paren : Token N → Bool
  is_l_paren Token.l_paren = true
  is_l_paren _ = false

  abbrev pub is_r_paren : Token N → Bool
  is_r_paren Token.r_paren = true
  is_r_paren _ = false

  abbrev pub is_comma : Token N → Bool
  is_comma Token.comma = true
  is_comma _ = false

  abbrev pub is_dot : Token N → Bool
  is_dot Token.dot = true
  is_dot _ = false

  abbrev pub cmp_op : Token N → Option CmpOp
  cmp_op Token.eq_eq = some CmpOp.eq
  cmp_op Token.not_eq = some CmpOp.ne
  cmp_op Token.lt = some CmpOp.lt
  cmp_op Token.le = some CmpOp.le
  cmp_op Token.gt = some CmpOp.gt
  cmp_op Token.ge = some CmpOp.ge
  cmp_op _ = none

  -- The operators of the loops of the levels.
  abbrev pub or_op : Token N → Option Joint
  or_op Token.or_or = some Joint.or
  or_op _ = none

  abbrev pub and_op : Token N → Option Joint
  and_op Token.and_and = some Joint.and
  and_op _ = none

  abbrev pub add_op : Token N → Option Joint
  add_op Token.plus = some (Joint.arith ArithOp.add)
  add_op Token.minus = some (Joint.arith ArithOp.sub)
  add_op _ = none

  abbrev pub mul_op : Token N → Option Joint
  mul_op Token.star = some (Joint.arith ArithOp.mul)
  mul_op Token.slash = some (Joint.arith ArithOp.div)
  mul_op Token.percent = some (Joint.arith ArithOp.rem)
  mul_op _ = none

  -- `reject_suffix`: the construct that a token opens behind a finished operand
  abbrev pub suffix : Token N → Option Text
  suffix Token.l_paren = some (codes "function call")
  suffix Token.l_bracket = some (codes "subscript access")
  suffix Token.dot = some (codes "attribute access")
  suffix _ = none

unfoldable pub arity_text : ℕ → Option ℕ → Text
unfolding digits
arity_text n none = codes "at least " ++ digits n
arity_text n (some m) = if n == m then digits n else digits n ++ codes "-" ++ digits m

abbrev pub ty_text : Ty → Text
ty_text Ty.number = codes "Number"
ty_text Ty.string = codes "String"
ty_text Ty.bool = codes "Bool"
ty_text Ty.unknown = codes "Unknown"

-- Two static types that cannot be the two branches of one `if`.
abbrev pub clash : Ty → Ty → Bool
clash Ty.unknown u = false
clash t Ty.unknown = false
clash Ty.number Ty.number = false
clash Ty.string Ty.string = false
clash Ty.bool Ty.bool = false
clash _ _ = true

-- The static types of the second and the third argument: an index out of bounds panics.
unfoldable pub branch_types : {N : Type 0} → Nodes N → Result (Ty × Ty)
unfolding infer_type
branch_types (cons c (cons t (cons e rest))) = ok (infer_type t, infer_type e)
branch_types _ = panic
