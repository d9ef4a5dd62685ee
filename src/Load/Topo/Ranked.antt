-- ===== src/Load/Topo/Ranked.antt =====
-- The order of the tables of a schema without cycles: `stable_topo_order` of dbcli/src/load/plan.rs.
use hepta_dbcli.Prelude.{ℕ, zero, suc, ◌<◌, true, false, List, [], ◌∷◌, ◌≡◌, refl, ◌∙◌, arith}
use hepta_dbcli.Text.{Text, one_of}
use hepta_dbcli.TextSet.{Distinct}
use hepta_dbcli.Load.Topo.{Outcome, ok, err, panic, out_of_fuel, stable_topo_order}
use hepta_dbcli.Load.Topo.Degrees.{Edges, Edge}
use hepta_dbcli.Load.Topo.Order.{LoadsInOrder}
use hepta_dbcli.Load.Topo.Answers.{onto, one_of-onto, Answers, stable_topo_order-Answers}

module _ (nodes : List Text) (edges : Edges) where
  -- Where the order ends, a table that is left refers to another one that is.
  open_end :
      (taken xs : List Text)
      → LoadsInOrder nodes edges taken xs
      → (n : Text) → one_of n nodes ≡ true
      → one_of n (onto taken xs) ≡ false
      → (p : Text) × Edge p n edges × (one_of p (onto taken xs) ≡ false)
  open_end taken [] h n k l = h n k l
  open_end taken (x ∷ xs) h n k l = open_end (x ∷ taken) xs h.3 n k l

  -- A table refers to tables of the plan.
  abbrev pub Inside : Type 0
  Inside = (p c : Text) → Edge p c edges → one_of c nodes ≡ true → one_of p nodes ≡ true

  -- A table refers to tables of a smaller rank, so that there is no cycle.
  abbrev pub Ranked : (Text → ℕ) → Type 0
  Ranked rank = (p c : Text) → Edge p c edges → one_of c nodes ≡ true → rank p < rank c

  module _ (rank : Text → ℕ) (inside : Inside) (ranked : Ranked rank) where
    none_left :
        (order : List Text)
        → LoadsInOrder nodes edges [] order
        → (bound : ℕ) (n : Text) → rank n < bound
        → one_of n nodes ≡ true
        → one_of n (onto [] order) ≡ false
        → ⊥
    none_left order h zero n b k l = omega (arith, b)
    none_left order h (suc bound) n b k l =
        let r = open_end [] order h n k l in
        none_left order h bound r.0 (omega (arith, b, ranked r.0 n r.1 k)) (inside r.0 n r.1 k) r.2

    -- The tables of a plan, with different names, that refer only to tables of the plan of a smaller rank,
    -- as those of a schema without cycles do, have a load order: the run ends with one, in which all of them
    -- stand, each behind those that it refers to.
    pub stable_topo_order-loads :
        Distinct nodes
        → (order : List Text) × (stable_topo_order nodes edges ≡ ok order)
          × LoadsInOrder nodes edges [] order
          × ((n : Text) → one_of n nodes ≡ true → one_of n order ≡ true)
    unfolding one_of
    stable_topo_order-loads d = succeeds _ (stable_topo_order-Answers nodes edges d)
      where
        succeeds :
            (o : Outcome (List Text))
            → Answers nodes edges o
            → (order : List Text) × (o ≡ ok order)
              × LoadsInOrder nodes edges [] order
              × ((n : Text) → one_of n nodes ≡ true → one_of n order ≡ true)
        succeeds (ok order) a = (order, refl, a.0, a.1)
        succeeds (err m) (order, h, n, k, l) =
            absurd (none_left order h (suc (rank n)) n (omega arith) k (one_of-onto n [] order ∙ l))
        succeeds panic a = absurd a
        succeeds out_of_fuel a = absurd a
