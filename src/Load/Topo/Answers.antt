-- ===== src/Load/Topo/Answers.antt =====
-- What `stable_topo_order` returns, and when it fails.
use hepta_dbcli.Prelude.{
  ℕ, suc, ◌+◌, ◌==◌, Bool, true, false, ◌||◌, List, [], ◌∷◌, length, if◌then◌else◌, ◌≡◌, ◌≢◌, refl,
  sym, ap, ◌∙◌, arith, Bool-cases, inl, inr, if-cases, ==_iff,
}
use mathlib.Core.Path.{subst}
use hepta_dbcli.Text.{Text, text_eq, one_of}
use hepta_dbcli.Text.Laws.{text_eq_iff}
use hepta_dbcli.TextSet.{Distinct, text_eq_refl}
use hepta_dbcli.Load.Topo.{
  Outcome, ok, err, panic, out_of_fuel, left_out, complete, stable_topo_order,
}
use hepta_dbcli.Load.Topo.Degrees.{Edges, Edge, text_eq_swapped}
use hepta_dbcli.Load.Topo.Order.{LoadsInOrder}
use hepta_dbcli.Load.Topo.Plan.{left_out-all, takes}

-- The tables that have been taken when a list of them has been, too.
abbrev pub onto : List Text → List Text → List Text
onto taken [] = taken
onto taken (x ∷ xs) = onto (x ∷ taken) xs

pub one_of-onto :
    (n : Text) (taken xs : List Text) → one_of n (onto taken xs) ≡ (one_of n taken || one_of n xs)
unfolding one_of
one_of-onto n taken [] = or_false (one_of n taken)
  where
    or_false : (b : Bool) → b ≡ (b || false)
    or_false true = refl
    or_false false = refl
one_of-onto n taken (x ∷ xs) =
    one_of-onto n (x ∷ taken) xs ∙ moved (text_eq x n) (one_of n taken) (one_of n xs)
  where
    moved : (a b c : Bool) → ((a || b) || c) ≡ (b || (a || c))
    moved true true c = refl
    moved true false c = refl
    moved false b c = refl

module _ (taken : List Text) (x : Text) where
  left_out-absent :
      (ns : List Text) → one_of x ns ≡ false → left_out (x ∷ taken) ns ≡ left_out taken ns
  unfolding one_of
  left_out-absent [] h = refl
  left_out-absent (n ∷ ns) h = elim (Bool-cases (text_eq n x)) [
    | inl e ↦ cc (rw e at h)
    | inr e ↦
        rw (text_eq_swapped x n, e)
          (ap (λ (ms : List Text). if one_of n taken then ms else n ∷ ms)
            (left_out-absent ns (rw e at h)))
  ]

  -- A table that is taken is left out no more.
  left_out-taken :
      (ns : List Text)
      → Distinct ns
      → one_of x ns ≡ true
      → one_of x taken ≡ false
      → suc (length (left_out (x ∷ taken) ns)) ≡ length (left_out taken ns)
  unfolding one_of
  left_out-taken [] d h k = cc
  left_out-taken (n ∷ ns) d h k = elim (Bool-cases (text_eq n x)) [
    | inl e ↦
        rw
          (
            text_eq_swapped x n,
            e,
            subst (λ (m : Text). one_of m taken ≡ false) (sym ((text_eq_iff n x).0 e)) k,
            left_out-absent ns
                (subst (λ (m : Text). one_of m ns ≡ false) ((text_eq_iff n x).0 e) d.0),
          )
          refl
    | inr e ↦
        rw (text_eq_swapped x n, e) (step (one_of n taken) (left_out-taken ns d.1 (rw e at h) k))
  ]
    where
      step :
          (b : Bool)
          → suc (length (left_out (x ∷ taken) ns)) ≡ length (left_out taken ns)
          → suc (length (if b then left_out (x ∷ taken) ns else n ∷ left_out (x ∷ taken) ns))
            ≡ length (if b then left_out taken ns else n ∷ left_out taken ns)
      step true h = h
      step false h = omega arith

left_out-member :
    (order ns : List Text)
    → length (left_out order ns) ≢ 0
    → (n : Text) × (one_of n ns ≡ true) × (one_of n order ≡ false)
unfolding one_of
left_out-member order [] h = absurd (h refl)
left_out-member order (n ∷ ns) h = elim (Bool-cases (one_of n order)) [
  | inl e ↦
      let r = left_out-member order ns (rw e at h) in
      (r.0, ap (λ (b : Bool). text_eq n r.0 || b) r.1 ∙ or_true (text_eq n r.0), r.2)
  | inr e ↦ (n, rw (text_eq_refl n) refl, e)
]
  where
    or_true : (b : Bool) → (b || true) ≡ true
    or_true true = refl
    or_true false = refl

left_out-none :
    (order ns : List Text) (n : Text)
    → length (left_out order ns) ≡ 0
    → one_of n ns ≡ true
    → one_of n order ≡ true
unfolding one_of
left_out-none order [] n h k = cc
left_out-none order (m ∷ ns) n h k = elim (Bool-cases (one_of m order)) [
  | inl e ↦ elim (Bool-cases (text_eq m n)) [
    | inl f ↦ subst (λ (x : Text). one_of x order ≡ true) ((text_eq_iff m n).0 f) e
    | inr f ↦ left_out-none order ns n (rw e at h) (rw f at k)
  ]
  | inr e ↦ absurd (omega (arith, rw e at h))
]

module _ (nodes : List Text) (edges : Edges) where
  -- Every table of the plan is in the order or is left out.
  left_out-onto :
      (taken xs : List Text)
      → Distinct nodes
      → LoadsInOrder nodes edges taken xs
      → length xs + length (left_out (onto taken xs) nodes) ≡ length (left_out taken nodes)
  left_out-onto taken [] d h = omega arith
  left_out-onto taken (x ∷ xs) d h =
      omega (arith, left_out-onto (x ∷ taken) xs d h.3, left_out-taken taken x nodes d h.0 h.1)

  -- A table refers to tables of the plan alone, if it is loaded.
  parents_known :
      (p c : Text) (taken xs : List Text)
      → ((n : Text) → one_of n taken ≡ true → one_of n nodes ≡ true)
      → LoadsInOrder nodes edges taken xs
      → Edge p c edges
      → one_of c xs ≡ true
      → one_of p nodes ≡ true
  unfolding one_of
  parents_known p c taken [] known h e k = cc
  parents_known p c taken (x ∷ xs) known h e k = elim (Bool-cases (text_eq x c)) [
    | inl q ↦ known p (h.2 p (subst (λ (m : Text). Edge p m edges) (sym ((text_eq_iff x c).0 q)) e))
    | inr q ↦ parents_known p c (x ∷ taken) xs now_known h.3 e (rw q at k)
  ]
    where
      now_known : (n : Text) → one_of n (x ∷ taken) ≡ true → one_of n nodes ≡ true
      now_known n t = elim (Bool-cases (text_eq x n)) [
        | inl q ↦ subst (λ (m : Text). one_of m nodes ≡ true) ((text_eq_iff x n).0 q) h.0
        | inr q ↦ known n (rw q at t)
      ]

  -- An order has all the tables of the plan, each behind those that it refers to; with an error there is a
  -- list of tables that can be loaded in their order, and a table beside it, and every table beside it
  -- refers to one that is not in the list.
  abbrev pub Answers : Outcome (List Text) → Type 0
  Answers (ok order) =
      LoadsInOrder nodes edges [] order
      × ((n : Text) → one_of n nodes ≡ true → one_of n order ≡ true)
  Answers (err m) =
      (order : List Text) × LoadsInOrder nodes edges [] order
      × (n : Text) × (one_of n nodes ≡ true)
      × (one_of n order ≡ false)
  Answers panic = ⊥
  Answers out_of_fuel = ⊥

  complete-Answers :
      (order : List Text)
      → Distinct nodes
      → LoadsInOrder nodes edges [] order
      → Answers (complete nodes order)
  unfolding complete one_of
  complete-Answers order d h =
      if-cases Answers (length order == length nodes)
        (λ e. (
          h,
          λ n k.
              sym (one_of-onto n [] order)
              ∙ left_out-none (onto [] order) nodes n
                  (omega (arith, (==_iff (length order) (length nodes)).0 e, counted)) k,
        ))
        (λ e.
          let r =
            left_out-member (onto [] order) nodes
              (left (length order) (length nodes) _ e counted) in
          (order, h, r.0, r.1, sym (one_of-onto r.0 [] order) ∙ r.2))
    where
      counted : length order + length (left_out (onto [] order) nodes) ≡ length nodes
      counted = left_out-onto [] order d h ∙ ap length (left_out-all nodes)

      left : (a b k : ℕ) → (a == b) ≡ false → a + k ≡ b → k ≢ 0
      left a b k h q z = ground arith

  -- The order of the tables of a plan with different names: the run ends, and without a panic. It ends
  -- with an order of all the tables in which each stands behind those that it refers to, or with an error,
  -- and then some tables cannot be loaded: each of them refers to one that is not loaded before.
  pub stable_topo_order-Answers : Distinct nodes → Answers (stable_topo_order nodes edges)
  unfolding stable_topo_order
  stable_topo_order-Answers d = let t = takes nodes edges in rw t.1 (complete-Answers t.0 d t.2)

  none_taken : (n : Text) → one_of n [] ≡ true → one_of n nodes ≡ true
  unfolding one_of
  none_taken n h = cc

  -- Where a table of a plan with different names refers to one that is not in the plan, there is no
  -- order: the result is an error.
  pub stable_topo_order-outside :
      (p c : Text)
      → Distinct nodes
      → Edge p c edges
      → one_of p nodes ≡ false
      → one_of c nodes ≡ true
      → (m : Text) × (stable_topo_order nodes edges ≡ err m)
  stable_topo_order-outside p c d e outside inside = fails _ (stable_topo_order-Answers d)
    where
      fails : (o : Outcome (List Text)) → Answers o → (m : Text) × (o ≡ err m)
      fails (ok order) a =
          cc (sym (parents_known p c [] order none_taken a.0 e (a.1 c inside)) ∙ outside)
      fails (err m) a = (m, refl)
      fails panic a = absurd a
      fails out_of_fuel a = absurd a
