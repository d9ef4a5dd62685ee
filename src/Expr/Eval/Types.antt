-- ===== src/Expr/Eval/Types.antt =====
-- Evaluation and the static types of `infer_type`: dbcli/src/synth/expr.rs.
use mathlib.Core.Path.{subst}
use hepta_dbcli.Prelude.{
  true, List, [], ◌∷◌, Option, some, ◌≡◌, refl, ap, arith, Bool-cases, inl, inr, if-cases,
}
use hepta_dbcli.Decimals.{DecimalOps}
use hepta_dbcli.Text.{Text, codes, text_eq}
use hepta_dbcli.Report
use hepta_dbcli.Expr.{
  Result, Returns, Returns->>=, Returns-weaken, Node, Nodes, nil, cons, count, FunctionSpec,
  fixed_arity, known_functions, find_spec, arity_fits, WellFormed, WellFormedArgs, Ty, branches,
  infer_type,
}
use hepta_dbcli.Expr.Eval.Values.{
  HasType, spec_at, compare_values-Bool, cell-Anything, arith_values-Number, negate_value-Number,
  EachReturns, concat_on-String, eval_right-String, eval_left-String, eval_substr-String,
  eval_if-three, and-Bool, or-Bool,
}
use hepta_dbcli.Expr.Eval.{
  eval_if, eval_right, eval_left, eval_substr, eval_call, eval_string_call, eval, eval_args,
}
use hepta_dbcli.Expr.Operands.{ArithOps, Value}

module _ (ops : DecimalOps) (sums : ArithOps ops) (lookup : Text → Option Report.Value) where
  -- The results of a call's arguments, each with its type.
  abbrev ArgsTyped : Nodes ops.Number → Type 0
  ArgsTyped nil = Unit
  ArgsTyped (cons n ns) = Returns (HasType (infer_type n)) (eval ops sums lookup n) × ArgsTyped ns

  each_returns :
      (args : Nodes ops.Number)
      → ArgsTyped args
      → EachReturns ops sums (eval_args ops sums lookup args)
  unfolding eval
  each_returns nil h = tt
  each_returns (cons n ns) h =
      (Returns-weaken _ _ (eval ops sums lookup n) (λ _ _. tt) h.0, each_returns ns h.1)

  eval_if-HasType :
      (args : Nodes ops.Number)
      → arity_fits (fixed_arity (codes "if") 3) (count args) ≡ true
      → ArgsTyped args
      → Returns (HasType (branches args)) (eval_if (eval_args ops sums lookup args))
  unfolding arity_fits eval eval_if infer_type
  eval_if-HasType nil e h = cc
  eval_if-HasType (cons a nil) e h = cc
  eval_if-HasType (cons a (cons b nil)) e h = cc
  eval_if-HasType (cons a (cons b (cons c nil))) e h =
      eval_if-three ops sums _ _ _ _ _ (Returns-weaken _ _ (eval ops sums lookup a) (λ _ _. tt) h.0)
        h.1.0 h.1.1.0
  eval_if-HasType (cons a (cons b (cons c (cons d rest)))) e h = tt

  two_args :
      (f : List (Result (Value ops.Number)) → Result (Value ops.Number))
      → ((a b : Result (Value ops.Number)) (rs : List (Result (Value ops.Number)))
          → EachReturns ops sums (a ∷ b ∷ rs)
          → Returns (HasType Ty.string) (f (a ∷ b ∷ rs)))
      → (spec : FunctionSpec) → spec.min_args ≡ 2
      → (args : Nodes ops.Number) → arity_fits spec (count args) ≡ true
      → ArgsTyped args
      → Returns (HasType Ty.string) (f (eval_args ops sums lookup args))
  unfolding arity_fits eval
  two_args f good spec two nil e h = absurd (ground arith)
  two_args f good spec two (cons a nil) e h = absurd (ground arith)
  two_args f good spec two (cons a (cons b rest)) e h =
      good _ _ _ (each_returns (cons a (cons b rest)) h)

  string_call :
      (name : Text) (args : Nodes ops.Number) (spec : FunctionSpec)
      → find_spec name known_functions ≡ some spec
      → arity_fits spec (count args) ≡ true
      → ArgsTyped args
      → Returns
          (HasType Ty.string)
          (eval_string_call ops sums name (eval_args ops sums lookup args))
  unfolding eval_string_call find_spec
  string_call name args spec found fits typed =
      if-cases P (text_eq name (codes "concat"))
        (λ _. concat_on-String ops sums [] _ (each_returns args typed))
        (λ _.
          if-cases P (text_eq name (codes "right"))
            (λ e.
              two_args (eval_right ops sums) (eval_right-String ops sums) spec
                (two (codes "right") _ refl e) args fits typed)
            (λ _.
              if-cases P (text_eq name (codes "left"))
                (λ e.
                  two_args (eval_left ops sums) (eval_left-String ops sums) spec
                    (two (codes "left") _ refl e) args fits typed)
                (λ _.
                  if-cases P (text_eq name (codes "substr"))
                    (λ e.
                      two_args (eval_substr ops sums) (eval_substr-String ops sums) spec
                        (two (codes "substr") _ refl e) args fits typed)
                    (λ _. tt))))
    where
      P : Result (Value ops.Number) → Type 0
      P = Returns (HasType Ty.string)

      two :
          (w : Text) (known : FunctionSpec)
          → find_spec w known_functions ≡ some known
          → text_eq name w ≡ true
          → spec.min_args ≡ known.min_args
      two w known at e =
          ap (λ (s : FunctionSpec). s.min_args) (spec_at w name known spec at e found)

  call-HasType :
      (name : Text) (args : Nodes ops.Number) (spec : FunctionSpec)
      → find_spec name known_functions ≡ some spec
      → arity_fits spec (count args) ≡ true
      → ArgsTyped args
      → Returns
          (HasType (infer_type (Node.call name args)))
          (eval_call ops sums name (eval_args ops sums lookup args))
  unfolding infer_type eval_call find_spec
  call-HasType name args spec found fits typed = elim (Bool-cases (text_eq name (codes "if"))) [
    | inl e ↦ rw e (
        eval_if-HasType args
          (subst (λ s. arity_fits s (count args) ≡ true)
            (spec_at (codes "if") name _ spec refl e found) fits)
          typed)
    | inr e ↦ rw e (string_call name args spec found fits typed)
  ]

  mutual
    unfolding eval infer_type WellFormed

    typed :
        (n : Node ops.Number)
        → WellFormed n
        → Returns (HasType (infer_type n)) (eval ops sums lookup n)
    typed (Node.number n) wf = tt
    typed (Node.str t) wf = tt
    typed (Node.column name) wf = cell-Anything ops (lookup name)
    typed (Node.negate n) wf =
        Returns->>= _ _ (eval ops sums lookup n) _ (typed n wf)
          λ v _ _. negate_value-Number ops sums v
    typed (Node.arith op l r) wf =
        Returns->>= _ _ (eval ops sums lookup l) _ (typed l wf.0) λ a _ _.
          Returns->>= _ _ (eval ops sums lookup r) _ (typed r wf.1)
            λ b _ _. arith_values-Number ops sums op a b
    typed (Node.compare op l r) wf =
        Returns->>= _ _ (eval ops sums lookup l) _ (typed l wf.0) λ a _ _.
          Returns->>= _ _ (eval ops sums lookup r) _ (typed r wf.1)
            λ b _ _. compare_values-Bool ops op _ _
    typed (Node.and l r) wf =
        and-Bool ops sums (eval ops sums lookup l) (eval ops sums lookup r)
          (Returns-weaken _ _ (eval ops sums lookup l) (λ _ _. tt) (typed l wf.0))
          (Returns-weaken _ _ (eval ops sums lookup r) (λ _ _. tt) (typed r wf.1))
    typed (Node.or l r) wf =
        or-Bool ops sums (eval ops sums lookup l) (eval ops sums lookup r)
          (Returns-weaken _ _ (eval ops sums lookup l) (λ _ _. tt) (typed l wf.0))
          (Returns-weaken _ _ (eval ops sums lookup r) (λ _ _. tt) (typed r wf.1))
    typed (Node.call name args) wf = call-HasType name args wf.0 wf.1 wf.2 (args_typed args wf.3)

    args_typed : (args : Nodes ops.Number) → WellFormedArgs args → ArgsTyped args
    args_typed nil wf = tt
    args_typed (cons n ns) wf = (typed n wf.0, args_typed ns wf.1)

-- A well-formed expression evaluates to an error or to a value of its static type, and never panics.
pub eval-HasType :
    (ops : DecimalOps) (sums : ArithOps ops) (lookup : Text → Option Report.Value)
    (n : Node ops.Number)
    → WellFormed n
    → Returns (HasType (infer_type n)) (eval ops sums lookup n)
eval-HasType ops sums lookup n wf = typed ops sums lookup n wf
