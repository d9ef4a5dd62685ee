-- ===== src/Expr/Parser/Reads.antt =====
-- The methods of the parser of dbcli/src/synth/expr.rs that do not call one another.
use hepta_dbcli.Prelude.{
  ℕ, zero, suc, ◌≤◌, ◌<◌, Bool, true, List, [], ◌∷◌, Option, some, length, if◌then◌else◌, ◌≡◌, sym,
  ap, ◌∙◌, arith, Bool-cases, Option-cases, inl, inr, if-cases,
}
use mathlib.Core.Path.{subst}
use mathlib.Core.Option.{some-injective}
use hepta_dbcli.Decimals.{DecimalOps}
use hepta_dbcli.Text.{Text, codes, text_eq}
use hepta_dbcli.Text.Laws.{text_eq_iff}
use hepta_dbcli.Expr.{
  Result, ok, ◌>>=◌, Returns, Returns->>=, Returns-weaken, find_spec, arity_fits, fixed_arity, Ty,
  Token, Node, Nodes, nil, cons, count, FunctionSpec, known_functions, WellFormed, WellFormedArgs,
}
use hepta_dbcli.Expr.Parser.{
  Tokens, Reader, advanced, first_suffix, chain, level, reject_suffix, expect, checked_call,
  column_token, column_after_parent, agree,
}
use hepta_dbcli.Expr.Operators.{Joint, joined, clash, branch_types}

joined-WellFormed :
    {N : Type 0} (j : Joint) (l r : Node N)
    → WellFormed l
    → WellFormed r
    → WellFormed (joined j l r)
unfolding WellFormed
joined-WellFormed Joint.or l r h k = (h, k)
joined-WellFormed Joint.and l r h k = (h, k)
joined-WellFormed (Joint.arith op) l r h k = (h, k)

text_eq→path : (s t : Text) → text_eq s t ≡ true → s ≡ t
text_eq→path s t = (text_eq_iff s t).0

find_spec-name :
    (name : Text) (specs : List FunctionSpec) (spec : FunctionSpec)
    → find_spec name specs ≡ some spec
    → name ≡ spec.name
unfolding find_spec
find_spec-name name [] spec e = cc
find_spec-name name (s ∷ specs) spec e = elim (Bool-cases (text_eq name s.name)) [
  | inl t ↦
      let first : some s ≡ some spec = rw (t, find_spec) at e in
      text_eq→path name s.name t ∙ ap FunctionSpec.name (some-injective _ _ first)
  | inr t ↦ find_spec-name name specs spec (rw (t, find_spec) at e)
]

if_spec :
    (name : Text) (spec : FunctionSpec)
    → find_spec name known_functions ≡ some spec
    → text_eq name (codes "if") ≡ true
    → spec ≡ fixed_arity (codes "if") 3
unfolding find_spec
if_spec name spec e t =
    let first : some (fixed_arity (codes "if") 3) ≡ some spec = rw (t, find_spec) at e in
    sym (some-injective _ _ first)

branch_types-Returns :
    {N : Type 0} (args : Nodes N)
    → arity_fits (fixed_arity (codes "if") 3) (count args) ≡ true
    → Returns (λ _. Unit {0}) (branch_types args)
unfolding arity_fits branch_types
branch_types-Returns nil e = cc
branch_types-Returns (cons a nil) e = cc
branch_types-Returns (cons a (cons b nil)) e = cc
branch_types-Returns (cons a (cons b (cons c rest))) e = tt

module _ (ops : DecimalOps) (end : ℕ) where
  -- The reader gives a well-formed tree and takes at least a token, on fewer tokens than the bound.
  abbrev pub Reads : ℕ → Reader ops end (Node ops.Number) → Type 0
  Reads bound reader =
      (ts : Tokens ops end)
      → length ts < bound
      → Returns (λ r. WellFormed r.0 × (length r.1 < length ts)) (reader ts)

  abbrev pub Keeps : Tokens ops end → Result (Node ops.Number × Tokens ops end) → Type 0
  Keeps ts = Returns (λ r. WellFormed r.0 × (length r.1 ≤ length ts))

  module _ (op : Token ops.Number → Option Joint) (operand : Reader ops end (Node ops.Number))
      (bound : ℕ) (reads : Reads bound operand) where
    pub chain-Keeps :
        (fuel : ℕ) (left : Node ops.Number) (ts : Tokens ops end)
        → length ts < fuel
        → length ts < bound
        → WellFormed left
        → Keeps ts (chain ops end op operand fuel left ts)
    unfolding chain
    chain-Keeps zero left ts h k wf = absurd (omega arith)
    chain-Keeps (suc fuel) left [] h k wf = (wf, omega arith)
    chain-Keeps (suc fuel) left (s ∷ ts) h k wf = elim (Option-cases (op s.token)) [
      | inl e ↦ rw (e, chain) (wf, omega arith)
      | inr (j, e) ↦
          rw (e, chain)
            (Returns->>= _ _ (operand ts) _ (reads ts (omega arith)) λ r _ good.
              Returns-weaken _ _ (chain ops end op operand fuel (joined j left r.0) r.1)
                (λ q kept. (kept.0, omega arith))
                (chain-Keeps fuel (joined j left r.0) r.1 (omega arith) (omega arith)
                  (joined-WellFormed j left r.0 wf good.0)))
    ]

    pub level-Reads : Reads bound (level ops end op operand)
    unfolding level
    level-Reads ts h = Returns->>= _ _ (operand ts) _ (reads ts h) λ r _ good.
        Returns-weaken _ _ (chain ops end op operand (suc (length r.1)) r.0 r.1)
          (λ q kept. (kept.0, omega arith))
          (chain-Keeps (suc (length r.1)) r.0 r.1 (omega arith) (omega arith) good.0)

  pub reject_suffix-Keeps :
      (base : Text) (ts : Tokens ops end) (n : Node ops.Number)
      → WellFormed n
      → Keeps ts (reject_suffix ops end base ts n)
  unfolding reject_suffix
  reject_suffix-Keeps base ts n wf = elim (Option-cases (first_suffix ops end ts)) [
    | inl e ↦ rw (e, reject_suffix) (wf, omega arith)
    | inr (c, e) ↦ rw (e, reject_suffix) tt
  ]

  pub expect-Returns :
      (p : Token ops.Number → Bool) (label : Text) (ts : Tokens ops end)
      → Returns (λ rest. length rest < length ts) (expect ops end p label ts)
  unfolding expect
  expect-Returns p label [] = tt
  expect-Returns p label (s ∷ ts) =
      if-cases (Returns (λ rest. length rest < length (s ∷ ts))) (p s.token) (λ _. omega arith)
        (λ _. tt)

  column_token-Keeps :
      (t : Token ops.Number) (p : ℕ) (ts : Tokens ops end) → Keeps ts (column_token ops end t p ts)
  unfolding column_token WellFormed
  column_token-Keeps (Token.ident c) p ts = reject_suffix-Keeps _ ts _ tt
  column_token-Keeps _ p ts = tt

  pub column_after_parent-Keeps : (ts : Tokens ops end) → Keeps ts (column_after_parent ops end ts)
  unfolding column_after_parent
  column_after_parent-Keeps [] = tt
  column_after_parent-Keeps (s ∷ ts) =
      Returns-weaken _ _ (column_token ops end s.token s.position ts)
        (λ r kept. (kept.0, omega arith)) (column_token-Keeps s.token s.position ts)

  agree-Returns :
      (name : Text) (ts : Tokens ops end) (tys : Ty × Ty)
      → Returns (λ _. Unit {0}) (agree ops end name ts tys)
  agree-Returns name ts (t, e) = if-cases (Returns (λ _. Unit {0})) (clash t e) (λ _. tt) (λ _. tt)

  call-WellFormed :
      (spec : FunctionSpec) (name : Text) (args : Nodes ops.Number)
      → find_spec name known_functions ≡ some spec
      → arity_fits spec (count args) ≡ true
      → WellFormedArgs args
      → WellFormed (Node.call spec.name args)
  unfolding WellFormed
  call-WellFormed spec name args e fits wf = (
    spec,
    ap (λ (n : Text). find_spec n known_functions)
          (sym (find_spec-name name known_functions spec e))
        ∙ e,
    fits,
    wf,
  )

  branches-Returns :
      (spec : FunctionSpec) (name : Text) (args : Nodes ops.Number) (ts : Tokens ops end)
      → find_spec name known_functions ≡ some spec
      → arity_fits spec (count args) ≡ true
      → Returns
          (λ _. Unit {0})
          (if text_eq name (codes "if") then branch_types args >>= agree ops end name ts else ok tt)
  branches-Returns spec name args ts e fits =
      if-cases (Returns (λ _. Unit {0})) (text_eq name (codes "if"))
        (λ t.
          Returns->>= _ _ (branch_types args) _
            (branch_types-Returns args
              (subst (λ s. arity_fits s (count args) ≡ true) (if_spec name spec e t) fits))
            λ tys _ _. agree-Returns name ts tys)
        (λ _. tt)

  pub checked_call-Keeps :
      (spec : FunctionSpec) (name : Text) (args : Nodes ops.Number) (ts : Tokens ops end)
      → find_spec name known_functions ≡ some spec
      → WellFormedArgs args
      → Keeps ts (checked_call ops end spec name args ts)
  unfolding checked_call
  checked_call-Keeps spec name args ts e wf =
      if-cases (Keeps ts) (arity_fits spec (count args))
        (λ fits.
          Returns->>= _ _
            (if text_eq name (codes "if")
              then branch_types args >>= agree ops end name ts
              else ok tt)
            _ (branches-Returns spec name args ts e fits)
            λ _ _ _. (call-WellFormed spec name args e fits wf, omega arith))
        (λ _. tt)

  pub length-advanced : (ts : Tokens ops end) → length (advanced ops end ts) ≤ length ts
  length-advanced [] = omega arith
  length-advanced (s ∷ ts) = omega arith
