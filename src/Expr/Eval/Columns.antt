-- ===== src/Expr/Eval/Columns.antt =====
-- The columns that an expression reads, and its evaluation: dbcli/src/synth/expr.rs.
use hepta_dbcli.Prelude.{
  true, false, List, [], ◌∷◌, Option, if◌then◌else◌, ◌≡◌, refl, ap, Bool-cases, inl, inr,
}
use hepta_dbcli.Decimals.{DecimalOps}
use hepta_dbcli.Text.{Text, text_eq, one_of}
use hepta_dbcli.Text.Laws.{text_eq_iff}
use hepta_dbcli.Report
use hepta_dbcli.Report.{text_le}
use hepta_dbcli.TextSet.{one_of-set_insert_self, one_of-set_insert_kept}
use hepta_dbcli.Expr.{ok, ◌>>=◌, Node, Nodes, nil, cons}
use hepta_dbcli.Expr.Eval.{truth, negate_value, eval_call, eval, eval_args}
use hepta_dbcli.Expr.Operands.{
  ArithOps, bool, arith_values, compare_values, as_number, is_literal, cell,
}
use hepta_dbcli.Expr.Referenced.{collect_columns, collect_args, check_each, check_columns}

-- Every column of the expression has the property.
mutual
  Reads : {N : Type 0} → (Text → Type 0) → Node N → Type 0
  Reads P (Node.number n) = Unit
  Reads P (Node.str t) = Unit
  Reads P (Node.column name) = P name
  Reads P (Node.negate n) = Reads P n
  Reads P (Node.arith op l r) = Reads P l × Reads P r
  Reads P (Node.compare op l r) = Reads P l × Reads P r
  Reads P (Node.and l r) = Reads P l × Reads P r
  Reads P (Node.or l r) = Reads P l × Reads P r
  Reads P (Node.call name args) = ReadsAll P args

  ReadsAll : {N : Type 0} → (Text → Type 0) → Nodes N → Type 0
  ReadsAll P nil = Unit
  ReadsAll P (cons n ns) = Reads P n × ReadsAll P ns

mutual
  unfolding Reads

  Reads-map :
      {N : Type 0} (P Q : Text → Type 0)
      → ((t : Text) → P t → Q t)
      → (n : Node N) → Reads P n
      → Reads Q n
  Reads-map P Q f (Node.number n) h = tt
  Reads-map P Q f (Node.str t) h = tt
  Reads-map P Q f (Node.column name) h = f name h
  Reads-map P Q f (Node.negate n) h = Reads-map P Q f n h
  Reads-map P Q f (Node.arith op l r) h = (Reads-map P Q f l h.0, Reads-map P Q f r h.1)
  Reads-map P Q f (Node.compare op l r) h = (Reads-map P Q f l h.0, Reads-map P Q f r h.1)
  Reads-map P Q f (Node.and l r) h = (Reads-map P Q f l h.0, Reads-map P Q f r h.1)
  Reads-map P Q f (Node.or l r) h = (Reads-map P Q f l h.0, Reads-map P Q f r h.1)
  Reads-map P Q f (Node.call name args) h = ReadsAll-map P Q f args h

  ReadsAll-map :
      {N : Type 0} (P Q : Text → Type 0)
      → ((t : Text) → P t → Q t)
      → (ns : Nodes N) → ReadsAll P ns
      → ReadsAll Q ns
  ReadsAll-map P Q f nil h = tt
  ReadsAll-map P Q f (cons n ns) h = (Reads-map P Q f n h.0, ReadsAll-map P Q f ns h.1)

-- A collected column stays collected.
mutual
  unfolding collect_columns

  kept :
      {N : Type 0} (n : Node N) (out : List Text) (x : Text)
      → one_of x out ≡ true
      → one_of x (collect_columns n out) ≡ true
  kept (Node.number n) out x h = h
  kept (Node.str t) out x h = h
  kept (Node.column name) out x h = one_of-set_insert_kept x name out h
  kept (Node.negate n) out x h = kept n out x h
  kept (Node.arith op l r) out x h = kept r (collect_columns l out) x (kept l out x h)
  kept (Node.compare op l r) out x h = kept r (collect_columns l out) x (kept l out x h)
  kept (Node.and l r) out x h = kept r (collect_columns l out) x (kept l out x h)
  kept (Node.or l r) out x h = kept r (collect_columns l out) x (kept l out x h)
  kept (Node.call name args) out x h = kept_all args out x h

  kept_all :
      {N : Type 0} (ns : Nodes N) (out : List Text) (x : Text)
      → one_of x out ≡ true
      → one_of x (collect_args ns out) ≡ true
  kept_all nil out x h = h
  kept_all (cons n ns) out x h = kept_all ns (collect_columns n out) x (kept n out x h)

abbrev In : List Text → Text → Type 0
In us t = one_of t us ≡ true

mutual
  unfolding collect_columns Reads

  collected : {N : Type 0} (n : Node N) (out : List Text) → Reads (In (collect_columns n out)) n
  collected (Node.number n) out = tt
  collected (Node.str t) out = tt
  collected (Node.column name) out = one_of-set_insert_self name out
  collected (Node.negate n) out = collected n out
  collected (Node.arith op l r) out = (
    Reads-map _ _ (kept r (collect_columns l out)) l (collected l out),
    collected r (collect_columns l out),
  )
  collected (Node.compare op l r) out = (
    Reads-map _ _ (kept r (collect_columns l out)) l (collected l out),
    collected r (collect_columns l out),
  )
  collected (Node.and l r) out = (
    Reads-map _ _ (kept r (collect_columns l out)) l (collected l out),
    collected r (collect_columns l out),
  )
  collected (Node.or l r) out = (
    Reads-map _ _ (kept r (collect_columns l out)) l (collected l out),
    collected r (collect_columns l out),
  )
  collected (Node.call name args) out = collected_all args out

  collected_all :
      {N : Type 0} (ns : Nodes N) (out : List Text) → ReadsAll (In (collect_args ns out)) ns
  collected_all nil out = tt
  collected_all (cons n ns) out = (
    Reads-map _ _ (kept_all ns (collect_columns n out)) n (collected n out),
    collected_all ns (collect_columns n out),
  )

check_each-In :
    (known names : List Text) (x : Text)
    → check_each known names ≡ ok tt
    → one_of x names ≡ true
    → one_of x known ≡ true
unfolding check_each one_of
check_each-In known [] x e h = cc
check_each-In known (name ∷ names) x e h = elim (Bool-cases (one_of name known)) [
  | inl t ↦ elim (Bool-cases (text_eq name x)) [
    | inl s ↦ rw (← (text_eq_iff name x).0 s) t
    | inr s ↦ check_each-In known names x (rw (t, check_each) at e) (rw (s, one_of) at h)
  ]
  | inr f ↦ cc (rw (f, check_each) at e)
]

module _ (ops : DecimalOps) (sums : ArithOps ops) (lookup other : Text → Option Report.Value)
    (P : Text → Type 0) (agree : (t : Text) → P t → lookup t ≡ other t) where
  mutual
    unfolding eval Reads

    same_value : (n : Node ops.Number) → Reads P n → eval ops sums lookup n ≡ eval ops sums other n
    same_value (Node.number n) h = refl
    same_value (Node.str t) h = refl
    same_value (Node.column name) h = ap (cell ops) (agree name h)
    same_value (Node.negate n) h = λ i. same_value n h i >>= negate_value ops sums
    same_value (Node.arith op l r) h =
        λ i. same_value l h.0 i >>= λ a. same_value r h.1 i >>= λ b. arith_values ops sums op a b
    same_value (Node.compare op l r) h = λ i. same_value l h.0 i >>= λ a.
        same_value r h.1 i >>= λ b.
        let b' = as_number ops a (is_literal r) b in
        compare_values ops op (as_number ops b' (is_literal l) a) b'
    same_value (Node.and l r) h = λ i. same_value l h.0 i >>= truth >>= λ a.
        if a then (same_value r h.1 i >>= truth >>= λ b. ok (bool b)) else ok (bool false)
    same_value (Node.or l r) h = λ i. same_value l h.0 i >>= truth >>= λ a.
        if a then ok (bool true) else (same_value r h.1 i >>= truth >>= λ b. ok (bool b))
    same_value (Node.call name args) h = ap (eval_call ops sums name) (same_values args h)

    same_values :
        (ns : Nodes ops.Number)
        → ReadsAll P ns
        → eval_args ops sums lookup ns ≡ eval_args ops sums other ns
    same_values nil h = refl
    same_values (cons n ns) h = λ i. same_value n h.0 i ∷ same_values ns h.1 i

-- Where the check of the columns passes, the value of an expression depends on the known columns of the
-- row alone.
pub eval-check_columns :
    (ops : DecimalOps) (sums : ArithOps ops) (n : Node ops.Number) (known : List Text)
    (lookup other : Text → Option Report.Value)
    → check_columns n known ≡ ok tt
    → ((t : Text) → one_of t known ≡ true → lookup t ≡ other t)
    → eval ops sums lookup n ≡ eval ops sums other n
unfolding check_columns
eval-check_columns ops sums n known lookup other checked agree =
    same_value ops sums lookup other (In known) agree n
      (Reads-map _ _ (λ x. check_each-In known (collect_columns n []) x checked) n (collected n []))
