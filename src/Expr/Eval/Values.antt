-- ===== src/Expr/Eval/Values.antt =====
-- The types of what the operations on values give: dbcli/src/synth/expr.rs.
use mathlib.Core.Option.{some-injective}
use hepta_dbcli.Prelude.{
  ℕ, Bool, true, false, List, [], ◌∷◌, ◌++◌, Option, none, some, if◌then◌else◌, ◌≡◌, sym, ap, ◌∙◌,
  if-cases,
}
use hepta_dbcli.Decimals.{DecimalOps}
use hepta_dbcli.Text.{Text, codes, text_eq}
use hepta_dbcli.Text.Laws.{text_eq_iff}
use hepta_dbcli.Report
use hepta_dbcli.Expr.{
  ExprError, Result, ok, ◌>>=◌, Returns, Returns->>=, Returns-weaken, ArithOp, CmpOp, FunctionSpec,
  known_functions, find_spec, Ty, branch_type,
}
use hepta_dbcli.Expr.Eval.{
  truth, eval_if, concat_value, concat_on, last_chars, first_chars, chars_from, eval_right,
  eval_left, eval_substr, length_arg, negate_value,
}
use hepta_dbcli.Expr.Operands.{
  ArithOps, Value, null, bool, number, str, ok_or, compare_values, from_json, cell, string_arg,
  number_or, checked_arith, arith_values, count_arg, bool_compare,
}

-- NULL is a value of every type but that of the predicates.
abbrev pub HasType : {N : Type 0} → Ty → Value N → Type 0
HasType Ty.unknown v = Unit
HasType Ty.number (number n) = Unit
HasType Ty.number null = Unit
HasType Ty.number _ = ⊥
HasType Ty.string (str t) = Unit
HasType Ty.string null = Unit
HasType Ty.string _ = ⊥
HasType Ty.bool (bool b) = Unit
HasType Ty.bool _ = ⊥

HasType-branch_type_left :
    {N : Type 0} (t u : Ty) (v : Value N) → HasType t v → HasType (branch_type t u) v
HasType-branch_type_left Ty.number Ty.number v h = h
HasType-branch_type_left Ty.string Ty.string v h = h
HasType-branch_type_left Ty.bool Ty.bool v h = h
HasType-branch_type_left _ _ v h = tt

HasType-branch_type_right :
    {N : Type 0} (t u : Ty) (v : Value N) → HasType u v → HasType (branch_type t u) v
HasType-branch_type_right Ty.number Ty.number v h = h
HasType-branch_type_right Ty.string Ty.string v h = h
HasType-branch_type_right Ty.bool Ty.bool v h = h
HasType-branch_type_right _ _ v h = tt

-- What is found at a name that is spelled out.
pub spec_at :
    (w name : Text) (known spec : FunctionSpec)
    → find_spec w known_functions ≡ some known
    → text_eq name w ≡ true
    → find_spec name known_functions ≡ some spec
    → spec ≡ known
spec_at w name known spec at e h =
    some-injective _ _
      (sym h ∙ ap (λ (n : Text). find_spec n known_functions) ((text_eq_iff name w).0 e) ∙ at)

module _ (ops : DecimalOps) where
  abbrev pub V : Type 0
  V = Value ops.Number

  abbrev pub Anything {ℓ} : {A : Type ℓ} → Result A → Type 0
  Anything = Returns (λ _. Unit {0})

  bool_compare-Bool :
      (op : CmpOp) (a b : Bool) → Returns (HasType {N = ops.Number} Ty.bool) (bool_compare op a b)
  bool_compare-Bool CmpOp.eq a b = tt
  bool_compare-Bool CmpOp.ne a b = tt
  bool_compare-Bool _ a b = tt

  pub compare_values-Bool :
      (op : CmpOp) (l r : V) → Returns (HasType Ty.bool) (compare_values ops op l r)
  unfolding compare_values
  compare_values-Bool op null r = tt
  compare_values-Bool op (number a) null = tt
  compare_values-Bool op (number a) (number b) = tt
  compare_values-Bool op (number a) (str b) = tt
  compare_values-Bool op (number a) (bool b) = tt
  compare_values-Bool op (str a) null = tt
  compare_values-Bool op (str a) (str b) = tt
  compare_values-Bool op (str a) (number b) = tt
  compare_values-Bool op (str a) (bool b) = tt
  compare_values-Bool op (bool a) null = tt
  compare_values-Bool op (bool a) (number b) = tt
  compare_values-Bool op (bool a) (str b) = tt
  compare_values-Bool op (bool a) (bool b) = bool_compare-Bool op a b

  number_or-Anything : (o : Option ops.Number) → Anything (number_or ops o)
  number_or-Anything none = tt
  number_or-Anything (some n) = tt

  pub cell-Anything : (o : Option Report.Value) → Anything (cell ops o)
  unfolding cell from_json
  cell-Anything none = tt
  cell-Anything (some Report.null) = tt
  cell-Anything (some (Report.boolean b)) = tt
  cell-Anything (some (Report.integer z)) = number_or-Anything _
  cell-Anything (some (Report.decimal t)) = number_or-Anything _
  cell-Anything (some (Report.string t)) = tt
  cell-Anything (some (Report.nested t)) = tt

  string_arg-Anything : (v : V) → Anything (string_arg ops v)
  unfolding string_arg
  string_arg-Anything (str t) = tt
  string_arg-Anything null = tt
  string_arg-Anything _ = tt

  truth-Anything : (v : V) → Anything (truth v)
  unfolding truth
  truth-Anything (bool b) = tt
  truth-Anything _ = tt

  checked-Number :
      (o : Option ops.Number) (e : ExprError)
      → Returns (HasType Ty.number) (ok_or o e >>= λ n. ok (number n))
  checked-Number none e = tt
  checked-Number (some n) e = tt

  module _ (sums : ArithOps ops) where
    checked_arith-Number :
        (op : ArithOp) (a b : ops.Number)
        → Returns (HasType Ty.number) (checked_arith ops sums op a b)
    unfolding checked_arith
    checked_arith-Number ArithOp.add a b = checked-Number _ _
    checked_arith-Number ArithOp.sub a b = checked-Number _ _
    checked_arith-Number ArithOp.mul a b = checked-Number _ _
    checked_arith-Number ArithOp.div a b = checked-Number _ _
    checked_arith-Number ArithOp.rem a b = checked-Number _ _

    pub arith_values-Number :
        (op : ArithOp) (l r : V) → Returns (HasType Ty.number) (arith_values ops sums op l r)
    unfolding arith_values
    arith_values-Number op null r = tt
    arith_values-Number op (number a) null = tt
    arith_values-Number op (number a) (number b) = checked_arith-Number op a b
    arith_values-Number op (number a) (str b) = tt
    arith_values-Number op (number a) (bool b) = tt
    arith_values-Number op (str a) null = tt
    arith_values-Number op (str a) _ = tt
    arith_values-Number op (bool a) null = tt
    arith_values-Number op (bool a) _ = tt

    pub negate_value-Number : (v : V) → Returns (HasType Ty.number) (negate_value ops sums v)
    unfolding negate_value
    negate_value-Number (number n) = tt
    negate_value-Number null = tt
    negate_value-Number _ = tt

    count_arg-Anything : (v : V) → Anything (count_arg ops sums v)
    unfolding count_arg
    count_arg-Anything (number n) =
        elim (sums.to_usize n)
          as (λ o. Anything (
            ok_or o
              (ExprError.type_mismatch (codes "string function count") (codes "negative number"))
            >>= λ k. ok (some k))) [ none ↦ tt | some k ↦ tt ]
    count_arg-Anything null = tt
    count_arg-Anything _ = tt

    -- The result list that `eval_call` is given, with what is known of each result.
    abbrev pub EachReturns : List (Result V) → Type 0
    EachReturns [] = Unit
    EachReturns (r ∷ rs) = Anything r × EachReturns rs

    concat_value-String :
        (more : Text → Result V)
        → ((t : Text) → Returns (HasType Ty.string) (more t))
        → (v : V) → Returns (HasType Ty.string) (concat_value more v)
    concat_value-String more h (str t) = h t
    concat_value-String more h null = tt
    concat_value-String more h _ = tt

    pub concat_on-String :
        (out : Text) (rs : List (Result V))
        → EachReturns rs
        → Returns (HasType Ty.string) (concat_on out rs)
    unfolding concat_on
    concat_on-String out [] h = tt
    concat_on-String out (r ∷ rs) h =
        Returns->>= (λ _. Unit {0}) _ r _ h.0
          λ v _ _. concat_value-String _ (λ t. concat_on-String (out ++ t) rs h.1) v

    last_chars-String :
        (t : Option Text) (n : Option ℕ) → HasType Ty.string (last_chars {N = ops.Number} t n)
    last_chars-String (some t) (some n) = tt
    last_chars-String _ _ = tt

    first_chars-String :
        (t : Option Text) (n : Option ℕ) → HasType Ty.string (first_chars {N = ops.Number} t n)
    first_chars-String (some t) (some n) = tt
    first_chars-String _ _ = tt

    chars_from-String :
        (t : Option Text) (s n : Option ℕ) → HasType Ty.string (chars_from {N = ops.Number} t s n)
    chars_from-String (some t) (some s) (some n) = tt
    chars_from-String _ _ _ = tt

    text_of : (a : Result V) → Anything a → Anything (a >>= string_arg ops)
    text_of a h = Returns->>= (λ _. Unit {0}) _ a _ h λ v _ _. string_arg-Anything v

    count_of : (a : Result V) → Anything a → Anything (a >>= count_arg ops sums)
    count_of a h = Returns->>= (λ _. Unit {0}) _ a _ h λ v _ _. count_arg-Anything v

    length_arg-Anything :
        (args : List (Result V)) → EachReturns args → Anything (length_arg ops sums args)
    unfolding length_arg
    length_arg-Anything (a ∷ b ∷ c ∷ rest) h = count_of c h.1.1.0
    length_arg-Anything [] h = tt
    length_arg-Anything (a ∷ []) h = tt
    length_arg-Anything (a ∷ b ∷ []) h = tt

    module _ (a b : Result V) (rs : List (Result V)) (h : EachReturns (a ∷ b ∷ rs)) where
      pub eval_right-String : Returns (HasType Ty.string) (eval_right ops sums (a ∷ b ∷ rs))
      unfolding eval_right
      eval_right-String =
          Returns->>= (λ _. Unit {0}) _ (a >>= string_arg ops) _ (text_of a h.0)
            λ t _ _.
              Returns->>= (λ _. Unit {0}) _ (b >>= count_arg ops sums) _ (count_of b h.1.0)
                λ n _ _. last_chars-String t n

      pub eval_left-String : Returns (HasType Ty.string) (eval_left ops sums (a ∷ b ∷ rs))
      unfolding eval_left
      eval_left-String =
          Returns->>= (λ _. Unit {0}) _ (a >>= string_arg ops) _ (text_of a h.0)
            λ t _ _.
              Returns->>= (λ _. Unit {0}) _ (b >>= count_arg ops sums) _ (count_of b h.1.0)
                λ n _ _. first_chars-String t n

      pub eval_substr-String : Returns (HasType Ty.string) (eval_substr ops sums (a ∷ b ∷ rs))
      unfolding eval_substr
      eval_substr-String =
          Returns->>= (λ _. Unit {0}) _ (a >>= string_arg ops) _ (text_of a h.0)
            λ t _ _.
              Returns->>= (λ _. Unit {0}) _ (b >>= count_arg ops sums) _ (count_of b h.1.0)
                λ s _ _.
                  Returns->>= (λ _. Unit {0}) _ (length_arg ops sums (a ∷ b ∷ rs)) _
                    (length_arg-Anything (a ∷ b ∷ rs) h) λ n _ _. chars_from-String t s n

    bool_of : (a : Result V) → Anything a → Anything (a >>= truth)
    bool_of a h = Returns->>= (λ _. Unit {0}) _ a _ h λ v _ _. truth-Anything v

    module _ (a b : Result V) (h : Anything a) (k : Anything b) where
      second-Bool : Returns (HasType {N = ops.Number} Ty.bool) (b >>= truth >>= λ y. ok (bool y))
      second-Bool = Returns->>= (λ _. Unit {0}) _ (b >>= truth) _ (bool_of b k) λ y _ _. tt

      pub and-Bool :
          Returns
            (HasType {N = ops.Number} Ty.bool)
            (a >>= truth >>= λ x. if x then (b >>= truth >>= λ y. ok (bool y)) else ok (bool false))
      and-Bool =
          Returns->>= (λ _. Unit {0}) _ (a >>= truth) _ (bool_of a h)
            λ x _ _.
              if-cases (Returns (HasType {N = ops.Number} Ty.bool)) x (λ _. second-Bool) (λ _. tt)

      pub or-Bool :
          Returns
            (HasType {N = ops.Number} Ty.bool)
            (a >>= truth >>= λ x. if x then ok (bool true) else (b >>= truth >>= λ y. ok (bool y)))
      or-Bool =
          Returns->>= (λ _. Unit {0}) _ (a >>= truth) _ (bool_of a h)
            λ x _ _.
              if-cases (Returns (HasType {N = ops.Number} Ty.bool)) x (λ _. tt) (λ _. second-Bool)

    pub eval_if-three :
        (t u : Ty) (c a b : Result V)
        → Anything c
        → Returns (HasType t) a
        → Returns (HasType u) b
        → Returns (HasType (branch_type t u)) (eval_if (c ∷ a ∷ b ∷ []))
    unfolding eval_if
    eval_if-three t u c a b h k l =
        Returns->>= (λ _. Unit {0}) _ (c >>= truth) _ (bool_of c h)
          λ w _ _.
            if-cases (Returns (HasType (branch_type t u))) w
              (λ _. Returns-weaken _ _ a (HasType-branch_type_left t u) k)
              (λ _. Returns-weaken _ _ b (HasType-branch_type_right t u) l)
