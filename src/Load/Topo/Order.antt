-- ===== src/Load/Topo/Order.antt =====
-- What the topological order of the tables promises, and the error when there is none.
use hepta_dbcli.Prelude.{
  ℕ, zero, suc, ◌+◌, ◌≤◌, ◌<◌, ◌==◌, Bool, true, false, not, ◌&&◌, ◌||◌, List, [], ◌∷◌, none, some,
  length, if◌then◌else◌, ◌≡◌, refl, sym, ap, ◌∙◌, arith, Bool-cases, inl, inr, ==_iff,
}
use mathlib.Core.Path.{subst}
use hepta_dbcli.Text.{Text, text_eq, one_of}
use hepta_dbcli.Text.Laws.{text_eq_iff}
use hepta_dbcli.TextSet.{Distinct, text_eq_refl}
use hepta_dbcli.Load.Topo.{NameMap, or_empty, relax, take_ready, left_out}
use hepta_dbcli.Load.Topo.Relax.{
  Finishes, Finishes->>=, count-none, count, Tracks, Relaxed, relax-Relaxed,
}
use hepta_dbcli.Load.Topo.Degrees.{
  Edges, Edge, pending, targets, targets-AllIn, pending-taken, pending-pos,
}
use hepta_dbcli.Load.Topo.Waiting.{
  left_out-lt, pending-le, open_parent, one_of-count, one_of-AllIn, combine,
}

-- In a set of tables each name is new, and all the tables that it refers to come before it; and where the
-- list ends, every table that is left refers to one that is not loaded.
abbrev pub LoadsInOrder : List Text → Edges → List Text → List Text → Type 0
LoadsInOrder nodes edges taken [] =
    (n : Text)
    → one_of n nodes ≡ true
    → one_of n taken ≡ false
    → (p : Text) × Edge p n edges × (one_of p taken ≡ false)
LoadsInOrder nodes edges taken (x ∷ xs) =
    (one_of x nodes ≡ true)
    × (one_of x taken ≡ false)
    × ((p : Text) → Edge p x edges → one_of p taken ≡ true)
    × LoadsInOrder nodes edges (x ∷ taken) xs

-- Between two rounds of the outer loop: the degrees count the open parents, the ready tables are those
-- with none that have not been taken, and no table that has been taken has one.
pub record Steady (nodes : List Text) (edges : Edges) (taken : List Text) (deg : NameMap ℕ)
    (ready : List Text) : Type 0 where
  pub tracks : Tracks nodes deg (pending edges taken)
  pub is_ready :
      (n : Text)
      → one_of n ready ≡ (one_of n nodes && not (one_of n taken) && pending edges taken n == 0)
  pub distinct : Distinct ready
  pub closed : (n : Text) → one_of n taken ≡ true → pending edges taken n ≡ 0

module _ (nodes : List Text) (edges : Edges) where
  three : (k t z : Bool) → (k && not t && z) ≡ true → (k ≡ true) × (t ≡ false) × (z ≡ true)
  three true false true h = (refl, refl, refl)
  three true false false h = cc
  three true true z h = cc
  three false t z h = cc

  module _ (x : Text) (ready taken : List Text) (deg : NameMap ℕ)
      (s : Steady nodes edges taken deg (x ∷ ready)) where
    first : (one_of x nodes ≡ true) × (one_of x taken ≡ false) × (pending edges taken x ≡ 0)
    unfolding one_of
    first =
        let r =
          three (one_of x nodes) (one_of x taken) (pending edges taken x == 0)
            (sym (s.is_ready x) ∙ rw (text_eq_refl x) refl) in
        (r.0, r.1, (==_iff _ 0).0 r.2)

    waiting : Text → ℕ
    waiting n = count n (targets nodes edges x)

    falls :
        (n : Text)
        → one_of n nodes ≡ true
        → pending edges taken n ≡ pending edges (x ∷ taken) n + count n (targets nodes edges x)
    falls n known = pending-taken nodes edges x taken n first.1 known

    before_relax :
        Tracks nodes deg (λ n. pending edges (x ∷ taken) n + count n (targets nodes edges x))
    before_relax n = s.tracks n ∙ known_only (one_of n nodes) (falls n)
      where
        known_only :
            (b : Bool)
            → (b ≡ true
                → pending edges taken n
                  ≡ pending edges (x ∷ taken) n + count n (targets nodes edges x))
            → (if b then some (pending edges taken n) else none) ≡ (
                if b
                then some (pending edges (x ∷ taken) n + count n (targets nodes edges x))
                else none)
        known_only true h = ap some (h refl)
        known_only false h = refl

    ready_settled :
        (n : Text)
        → one_of n ready ≡ true
        → pending edges (x ∷ taken) n + count n (targets nodes edges x) ≡ 0
    unfolding one_of
    ready_settled n h =
        let r =
          three (one_of n nodes) (one_of n taken) (pending edges taken n == 0)
            (sym (s.is_ready n) ∙ rw h (or_true (text_eq x n))) in
        sym (falls n r.0) ∙ (==_iff _ 0).0 r.2
      where
        or_true : (b : Bool) → (b || true) ≡ true
        or_true true = refl
        or_true false = refl

    first_is_done : one_of x (targets nodes edges x) ≡ false
    first_is_done = elim (Bool-cases (one_of x (targets nodes edges x))) [
      | inl e ↦
          absurd (omega (arith, one_of-count x (targets nodes edges x) e, falls x first.0, first.2))
      | inr e ↦ e
    ]

    next_is_ready :
        (n : Text)
        → (one_of n ready || (pending edges (x ∷ taken) n == 0 && one_of n (targets nodes edges x)))
          ≡ (one_of n nodes && not (one_of n (x ∷ taken)) && pending edges (x ∷ taken) n == 0)
    unfolding one_of
    next_is_ready n = elim (Bool-cases (text_eq x n)) [
      | inl e ↦
          subst
            (λ (m : Text).
              (one_of m ready
                || (pending edges (x ∷ taken) m == 0 && one_of m (targets nodes edges x)))
              ≡ (one_of m nodes && not (one_of m (x ∷ taken)) && pending edges (x ∷ taken) m == 0))
            ((text_eq_iff x n).0 e)
            (rw (s.distinct.0, first_is_done, text_eq_refl x, first.0)
              (no_more (pending edges (x ∷ taken) x == 0)))
      | inr e ↦ rw e (
          combine (one_of n nodes) (one_of n taken) (one_of n (targets nodes edges x))
            (one_of n ready) (pending edges (x ∷ taken) n) (count n (targets nodes edges x))
            (pending edges taken n) (rw e at (s.is_ready n)) (falls n) (s.closed n)
            (one_of-AllIn nodes (targets nodes edges x) n (targets-AllIn nodes edges x))
            (one_of-count n (targets nodes edges x)) (count-none nodes n (targets nodes edges x)))
    ]
      where
        no_more : (b : Bool) → (b && false) ≡ (false && b)
        no_more true = refl
        no_more false = refl

    still_closed : (n : Text) → one_of n (x ∷ taken) ≡ true → pending edges (x ∷ taken) n ≡ 0
    unfolding one_of
    still_closed n h = elim (Bool-cases (text_eq x n)) [
      | inl e ↦
          subst (λ (m : Text). pending edges (x ∷ taken) m ≡ 0) ((text_eq_iff x n).0 e)
            (omega (arith, pending-le edges x taken x, first.2))
      | inr e ↦ omega (arith, pending-le edges x taken n, s.closed n (rw e at h))
    ]

    next_round :
        (r : NameMap ℕ × List Text)
        → Relaxed nodes (pending edges (x ∷ taken)) (targets nodes edges x) ready r
        → Steady nodes edges (x ∷ taken) r.0 r.1
    next_round r relaxed = record {
      tracks = relaxed.0;
      is_ready = λ n. relaxed.1 n ∙ next_is_ready n;
      distinct = relaxed.2;
      closed = still_closed;
    }

    parents_taken : (p : Text) → Edge p x edges → one_of p taken ≡ true
    parents_taken p e = elim (Bool-cases (one_of p taken)) [
      | inl t ↦ t
      | inr f ↦ absurd (omega (arith, pending-pos edges taken p x e f, first.2))
    ]

  all_wait :
      (taken : List Text) (deg : NameMap ℕ)
      → Steady nodes edges taken deg []
      → LoadsInOrder nodes edges taken []
  unfolding one_of
  all_wait taken deg s n known new =
      open_parent edges taken n
        (positive (pending edges taken n) (s.is_ready n ∙ rw (known, new) refl))
    where
      positive : (k : ℕ) → false ≡ (k == 0) → 0 < k
      positive k h = ground arith

  module _ (children : NameMap (List Text))
      (kids : (p : Text) → or_empty (children p) ≡ targets nodes edges p) where
    pub take_ready-LoadsInOrder :
        (fuel : ℕ) (taken : List Text) (deg : NameMap ℕ) (ready : List Text)
        → Steady nodes edges taken deg ready
        → length (left_out taken nodes) ≤ fuel
        → Finishes (LoadsInOrder nodes edges taken) (take_ready children fuel deg ready)
    unfolding take_ready
    take_ready-LoadsInOrder zero taken deg [] s h = all_wait taken deg s
    take_ready-LoadsInOrder (suc fuel) taken deg [] s h = all_wait taken deg s
    take_ready-LoadsInOrder zero taken deg (x ∷ ready) s h = absurd (
        omega (
          arith,
          left_out-lt taken x nodes (first x ready taken deg s).0 (first x ready taken deg s).1,
        ))
    take_ready-LoadsInOrder (suc fuel) taken deg (x ∷ ready) s h = rw (kids x) (
        Finishes->>= _ _ (relax (targets nodes edges x) deg ready) _
          (relax-Relaxed nodes (targets nodes edges x) deg ready (pending edges (x ∷ taken))
            (targets-AllIn nodes edges x) (before_relax x ready taken deg s)
            (ready_settled x ready taken deg s) s.distinct.1)
          λ r relaxed.
            Finishes->>= _ _ (take_ready children fuel r.0 r.1) _
              (take_ready-LoadsInOrder fuel (x ∷ taken) r.0 r.1
                (next_round x ready taken deg s r relaxed)
                (omega (
                  arith,
                  left_out-lt taken x nodes (first x ready taken deg s).0
                      (first x ready taken deg s).1,
                )))
              λ rest follows. (
                (first x ready taken deg s).0,
                (first x ready taken deg s).1,
                parents_taken x ready taken deg s,
                follows,
              ))
