-- ===== src/Load/Topo/Plan.antt =====
-- What `stable_topo_order` returns, and when it fails.
use hepta_dbcli.Prelude.{
  ℕ, zero, suc, ◌==◌, Bool, true, false, not, ◌&&◌, ◌||◌, List, [], ◌∷◌, Option, length,
  if◌then◌else◌, ◌≡◌, refl, ap, ◌∙◌, arith, Bool-cases, inl, inr, if-cases, some, none,
}
use mathlib.Core.Path.{subst}
use hepta_dbcli.Text.{Text, text_eq, one_of}
use hepta_dbcli.Text.Laws.{text_eq_iff}
use hepta_dbcli.TextSet.{set_insert, one_of-set_insert, Distinct, set_insert-Distinct}
use hepta_dbcli.Load.Topo.{
  Outcome, ok, err, panic, out_of_fuel, NameMap, graph_of, is_zero, initially_ready, take_ready,
  left_out,
}
use hepta_dbcli.Load.Topo.Relax.{Finishes}
use hepta_dbcli.TextSet.{text_eq_refl}
use hepta_dbcli.Load.Topo.Degrees.{Edges, pending, graph_of-Tracks, graph_of-children}
use hepta_dbcli.Load.Topo.Order.{LoadsInOrder, Steady, take_ready-LoadsInOrder}

module _ (deg : NameMap ℕ) where
  put_in :
      (x m : Text) (rest : List Text) (b : Bool)
      → one_of x (if b then set_insert m rest else rest) ≡ (b && text_eq m x || one_of x rest)
  put_in x m rest true = one_of-set_insert x m rest
  put_in x m rest false = refl

  itself : (z k : Bool) → (z && not k && true || k && z) ≡ z
  itself true true = refl
  itself true false = refl
  itself false true = refl
  itself false false = refl

  another : (b c : Bool) → (b && false || c) ≡ c
  another true c = refl
  another false c = refl

  one_of-initially_ready :
      (n : Text) (ns : List Text)
      → one_of n (initially_ready deg ns) ≡ (one_of n ns && is_zero (deg n))
  unfolding initially_ready one_of
  one_of-initially_ready n [] = refl
  one_of-initially_ready n (m ∷ ns) =
      put_in n m (initially_ready deg ns) (is_zero (deg m) && not (one_of m ns))
      ∙ elim (Bool-cases (text_eq m n)) [
        | inl e ↦
            subst
              (λ (x : Text).
                (is_zero (deg m) && not (one_of m ns) && text_eq m x
                  || one_of x (initially_ready deg ns))
                ≡ ((text_eq m x || one_of x ns) && is_zero (deg x)))
              ((text_eq_iff m n).0 e)
              (rw (text_eq_refl m, one_of-initially_ready m ns)
                (itself (is_zero (deg m)) (one_of m ns)))
        | inr e ↦
            rw (e, one_of-initially_ready n ns) (another (is_zero (deg m) && not (one_of m ns)) _)
      ]

  initially_ready-Distinct : (ns : List Text) → Distinct (initially_ready deg ns)
  unfolding initially_ready
  initially_ready-Distinct [] = tt
  initially_ready-Distinct (m ∷ ns) =
      if-cases Distinct (is_zero (deg m) && not (one_of m ns))
        (λ e. set_insert-Distinct m (initially_ready deg ns) (new e) (initially_ready-Distinct ns))
        (λ _. initially_ready-Distinct ns)
    where
      absent : (z k : Bool) → (z && not k) ≡ true → (k && z) ≡ false
      absent true false h = refl
      absent true true h = cc
      absent false false h = refl
      absent false true h = refl

      new :
          (is_zero (deg m) && not (one_of m ns)) ≡ true → one_of m (initially_ready deg ns) ≡ false
      new e = one_of-initially_ready m ns ∙ absent (is_zero (deg m)) (one_of m ns) e

pub left_out-all : (ns : List Text) → left_out [] ns ≡ ns
unfolding one_of
left_out-all [] = refl
left_out-all (n ∷ ns) = ap (λ (ms : List Text). n ∷ ms) (left_out-all ns)

module _ (nodes : List Text) (edges : Edges) where
  at_the_start :
      Steady nodes edges []
        (graph_of nodes edges).in_degree
        (initially_ready (graph_of nodes edges).in_degree nodes)
  unfolding one_of
  at_the_start = record {
    tracks = graph_of-Tracks nodes edges;
    is_ready = λ n.
        one_of-initially_ready (graph_of nodes edges).in_degree n nodes
        ∙ ap (λ (d : Option ℕ). one_of n nodes && is_zero d) (graph_of-Tracks nodes edges n)
        ∙ same (one_of n nodes) (pending edges [] n);
    distinct = initially_ready-Distinct (graph_of nodes edges).in_degree nodes;
    closed = λ n h. cc;
  }
    where
      same :
          (b : Bool) (k : ℕ) → (b && is_zero (if b then some k else none)) ≡ (b && true && k == 0)
      same true zero = refl
      same true (suc k) = ground arith
      same false k = refl

  -- What the outer loop takes.
  abbrev pub Takes : List Text → Type 0
  Takes order =
      take_ready (graph_of nodes edges).children (length nodes) (graph_of nodes edges).in_degree
        (initially_ready (graph_of nodes edges).in_degree nodes)
      ≡ ok order

  pub finishes :
      (o : Outcome (List Text)) (P : List Text → Type 0)
      → Finishes P o
      → (r : List Text) × (o ≡ ok r) × P r
  finishes (ok r) P h = (r, refl, h)
  finishes (err e) P h = absurd h
  finishes panic P h = absurd h
  finishes out_of_fuel P h = absurd h

  pub takes : (order : List Text) × Takes order × LoadsInOrder nodes edges [] order
  takes = finishes _ (LoadsInOrder nodes edges []) (
      take_ready-LoadsInOrder nodes edges (graph_of nodes edges).children
        (graph_of-children nodes edges) (length nodes) [] _ _ at_the_start
        (rw (left_out-all nodes) (omega arith)))
