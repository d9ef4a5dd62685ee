-- ===== src/Expr.antt =====
-- The expressions of column rules: the errors, the tokens, the syntax trees and the types of
-- dbcli/src/synth/expr.rs. `N` is the type of the numbers, the decimals of a library.
pub mod Operands
pub mod Referenced
pub mod Eval
pub mod Lex
pub mod Operators
pub mod Parser
mod Examples
use hepta_dbcli.Prelude.{
  ℕ, suc, refl, ltb, leb, not, ◌||◌, Bool, true, false, List, [], ◌∷◌, ◌++◌, Option, none, some,
  ◌≡◌, if◌then◌else◌,
}
use hepta_dbcli.Text.{Text, codes, text_eq}

pub data ExprError : Type 0 where
  syntax : Text → ℕ → ExprError
  disallowed : Text → Text → ExprError
  unknown_column : Text → ExprError
  division_by_zero : Text → ExprError
  remainder_by_zero : Text → ExprError
  mixed_type_comparison : Text → Text → ExprError
  type_mismatch : Text → Text → ExprError
  non_boolean_predicate : Text → ExprError
  null_result : ExprError
  overflow : Text → ExprError

-- `Result<A, ExprError>`, a panic of an index out of bounds, or no fuel left (the theorems exclude
-- both).
pub data Result {ℓ} (A : Type ℓ) : Type ℓ where
  ok : A → Result A
  err : ExprError → Result A
  panic : Result A
  out_of_fuel : Result A

infixl 5 ◌>>=◌
abbrev pub ◌>>=◌ {ℓ κ} : {A : Type ℓ} {B : Type κ} → Result A → (A → Result B) → Result B
ok a >>= f = f a
err e >>= f = err e
panic >>= f = panic
out_of_fuel >>= f = out_of_fuel

-- The run ends, and a value that it returns has the property.
abbrev pub Returns {ℓ} : {A : Type ℓ} → (A → Type 0) → Result A → Type 0
Returns P (ok a) = P a
Returns P (err e) = Unit
Returns P panic = ⊥
Returns P out_of_fuel = ⊥

pub Returns->>= {ℓ κ} :
    {A : Type ℓ} {B : Type κ} (P : A → Type 0) (Q : B → Type 0) (m : Result A) (f : A → Result B)
    → Returns P m
    → ((a : A) → m ≡ ok a → P a → Returns Q (f a))
    → Returns Q (m >>= f)
Returns->>= P Q (ok a) f h k = k a refl h
Returns->>= P Q (err e) f h k = tt
Returns->>= P Q panic f h k = h
Returns->>= P Q out_of_fuel f h k = h

pub Returns-weaken {ℓ} :
    {A : Type ℓ} (P Q : A → Type 0) (m : Result A)
    → ((a : A) → P a → Q a)
    → Returns P m
    → Returns Q m
Returns-weaken P Q (ok a) w h = w a h
Returns-weaken P Q (err e) w h = tt
Returns-weaken P Q panic w h = h
Returns-weaken P Q out_of_fuel w h = h

pub data Token (N : Type 0) : Type 0 where
  number : N → Token N
  str : Text → Token N
  ident : Text → Token N
  l_paren r_paren l_bracket r_bracket comma dot plus minus star slash percent : Token N
  eq_eq not_eq lt le gt ge and_and or_or : Token N

-- `Display` of a token; `show` prints a number
unfoldable pub token_text : {N : Type 0} → (N → Text) → Token N → Text
token_text show (number v) = show v
token_text show (str t) = codes "'" ++ t ++ codes "'"
token_text show (ident t) = t
token_text show l_paren = codes "("
token_text show r_paren = codes ")"
token_text show l_bracket = codes "["
token_text show r_bracket = codes "]"
token_text show comma = codes ","
token_text show dot = codes "."
token_text show plus = codes "+"
token_text show minus = codes "-"
token_text show star = codes "*"
token_text show slash = codes "/"
token_text show percent = codes "%"
token_text show eq_eq = codes "=="
token_text show not_eq = codes "!="
token_text show lt = codes "<"
token_text show le = codes "<="
token_text show gt = codes ">"
token_text show ge = codes ">="
token_text show and_and = codes "&&"
token_text show or_or = codes "||"

pub record Spanned (N : Type 0) : Type 0 where
  pub token : Token N
  pub position : ℕ

pub data ArithOp : Type 0 where
  add sub mul div rem : ArithOp

abbrev pub arith_symbol : ArithOp → Text
arith_symbol add = codes "+"
arith_symbol sub = codes "-"
arith_symbol mul = codes "*"
arith_symbol div = codes "/"
arith_symbol rem = codes "%"

pub data CmpOp : Type 0 where
  eq ne lt le gt ge : CmpOp

abbrev pub cmp_symbol : CmpOp → Text
cmp_symbol eq = codes "=="
cmp_symbol ne = codes "!="
cmp_symbol lt = codes "<"
cmp_symbol le = codes "<="
cmp_symbol gt = codes ">"
cmp_symbol ge = codes ">="

mutual
  pub data Node (N : Type 0) : Type 0 where
    number : N → Node N
    str : Text → Node N
    column : Text → Node N
    negate : Node N → Node N
    arith : ArithOp → Node N → Node N → Node N
    compare : CmpOp → Node N → Node N → Node N
    and : Node N → Node N → Node N
    or : Node N → Node N → Node N
    call : Text → Nodes N → Node N

  pub data Nodes (N : Type 0) : Type 0 where
    nil : Nodes N
    cons : Node N → Nodes N → Nodes N

abbrev pub count : {N : Type 0} → Nodes N → ℕ
count nil = 0
count (cons n ns) = suc (count ns)

pub record FunctionSpec : Type 0 where
  pub name : Text
  pub min_args : ℕ
  pub max_args : Option ℕ

abbrev pub fixed_arity : Text → ℕ → FunctionSpec
fixed_arity name arity = record { name = name; min_args = arity; max_args = some arity }

abbrev pub known_functions : List FunctionSpec
known_functions =
    fixed_arity (codes "if") 3
    ∷ fixed_arity (codes "concat") 2
    ∷ record { name = codes "substr"; min_args = 2; max_args = some 3 }
    ∷ fixed_arity (codes "right") 2
    ∷ fixed_arity (codes "left") 2
    ∷ []

abbrev pub known_function_names : List FunctionSpec → List Text
known_function_names [] = []
known_function_names (spec ∷ specs) = spec.name ∷ known_function_names specs

-- `KNOWN_FUNCTIONS.iter().find(..)`
unfoldable pub find_spec : Text → List FunctionSpec → Option FunctionSpec
unfolding text_eq
find_spec name [] = none
find_spec name (spec ∷ specs) = if text_eq name spec.name then some spec else find_spec name specs

abbrev pub at_most : ℕ → Option ℕ → Bool
at_most n none = true
at_most n (some m) = leb n m

-- The number of arguments is one that the function takes.
unfoldable pub arity_fits : FunctionSpec → ℕ → Bool
arity_fits spec n = not (ltb n spec.min_args || not (at_most n spec.max_args))

-- Every call is of a known function, with a number of arguments that it takes.
unfoldable mutual
  pub WellFormed : {N : Type 0} → Node N → Type 0
  WellFormed (number v) = Unit
  WellFormed (str t) = Unit
  WellFormed (column c) = Unit
  WellFormed (negate n) = WellFormed n
  WellFormed (arith op l r) = WellFormed l × WellFormed r
  WellFormed (compare op l r) = WellFormed l × WellFormed r
  WellFormed (and l r) = WellFormed l × WellFormed r
  WellFormed (or l r) = WellFormed l × WellFormed r
  WellFormed (call name args) =
      (spec : FunctionSpec) × (find_spec name known_functions ≡ some spec)
      × (arity_fits spec (count args) ≡ true)
      × WellFormedArgs args

  pub WellFormedArgs : {N : Type 0} → Nodes N → Type 0
  WellFormedArgs nil = Unit
  WellFormedArgs (cons n ns) = WellFormed n × WellFormedArgs ns

-- The static type of an expression.
pub data Ty : Type 0 where
  number string bool unknown : Ty

-- The type of a call of `if`, by the types of its second and third argument.
abbrev pub branch_type : Ty → Ty → Ty
branch_type number number = number
branch_type string string = string
branch_type bool bool = bool
branch_type _ _ = unknown

unfoldable mutual
  unfolding text_eq

  pub infer_type : {N : Type 0} → Node N → Ty
  infer_type (number v) = number
  infer_type (str t) = string
  infer_type (column c) = unknown
  infer_type (negate n) = number
  infer_type (arith op l r) = number
  infer_type (compare op l r) = bool
  infer_type (and l r) = bool
  infer_type (or l r) = bool
  infer_type (call name args) = if text_eq name (codes "if") then branches args else string

  pub branches : {N : Type 0} → Nodes N → Ty
  branches (cons c (cons t (cons e rest))) = branch_type (infer_type t) (infer_type e)
  branches _ = unknown
