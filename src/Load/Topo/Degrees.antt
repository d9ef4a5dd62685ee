-- ===== src/Load/Topo/Degrees.antt =====
-- The graph that is built from the edges, and how the number of open parents of a table falls.
use hepta_dbcli.Prelude.{
  ℕ, suc, ◌+◌, Bool, true, false, not, ◌&&◌, List, [], ◌∷◌, ◌++◌, Option, none, some, if◌then◌else◌,
  ◌≡◌, refl, sym, ap, ◌∙◌, arith, Bool-cases, inl, inr, ◌⊎◌, ◌<◌, if-cases,
}
use mathlib.Core.Path.{subst}
use mathlib.Core.List.{append_assoc, append-nil}
use native.Mathlib.Nat.{add-zero, zero-add}
use hepta_dbcli.Text.{Text, text_eq, one_of}
use hepta_dbcli.Text.Laws.{text_eq_iff}
use hepta_dbcli.Load.Topo.{
  NameMap, put, or_empty, Graph, add_edge, add_edges, all_to, no_edges, graph_of,
}
use hepta_dbcli.Load.Topo.Relax.{count, AllIn, Tracks}
use hepta_dbcli.TextSet.{text_eq_refl}

abbrev pub Edges : Type 0
Edges = List (Text × Text)

-- The edges into a table from tables that are not in the list.
abbrev pub pending : Edges → List Text → Text → ℕ
pending [] taken n = 0
pending ((p, c) ∷ es) taken n =
    if text_eq c n && not (one_of p taken) then suc (pending es taken n) else pending es taken n

-- The children of a table, once for each edge.
abbrev pub targets : List Text → Edges → Text → List Text
targets nodes [] p = []
targets nodes ((q, c) ∷ es) p =
    if one_of c nodes && text_eq q p then c ∷ targets nodes es p else targets nodes es p

module _ (nodes : List Text) where
  abbrev Lists : NameMap (List Text) → (Text → List Text) → Type 0
  Lists ch g = (p : Text) → or_empty (ch p) ≡ g p

  module _ (p c : Text) (g : Graph) (f : Text → ℕ) (h : Tracks nodes g.in_degree f) where
    abbrev grown : Graph
    grown = record {
      in_degree = put c (suc (f c)) g.in_degree;
      children = put p (or_empty (g.children p) ++ c ∷ []) g.children;
    }

    add_edge-known : one_of c nodes ≡ true → add_edge (p, c) g ≡ grown
    unfolding add_edge
    add_edge-known e = rw (h c, e) refl

    add_edge-unknown : one_of c nodes ≡ false → add_edge (p, c) g ≡ g
    unfolding add_edge
    add_edge-unknown e = rw (h c, e) refl

    grown-Tracks :
        one_of c nodes ≡ true
        → Tracks nodes grown.in_degree (λ n. f n + (if text_eq c n then 1 else 0))
    grown-Tracks known n = elim (Bool-cases (text_eq c n)) [
      | inl e ↦
          subst
            (λ (m : Text).
              (if text_eq c m then some (suc (f c)) else g.in_degree m)
              ≡ (if one_of m nodes then some (f m + (if text_eq c m then 1 else 0)) else none))
            ((text_eq_iff c n).0 e) (rw (text_eq_refl c, known) (ap some (omega arith)))
      | inr e ↦ rw (e, add-zero) (h n)
    ]

    same-Tracks :
        one_of c nodes ≡ false
        → Tracks nodes g.in_degree (λ n. f n + (if text_eq c n then 1 else 0))
    same-Tracks unknown n = elim (Bool-cases (text_eq c n)) [
      | inl e ↦
          subst
            (λ (m : Text).
              g.in_degree m
              ≡ (if one_of m nodes then some (f m + (if text_eq c m then 1 else 0)) else none))
            ((text_eq_iff c n).0 e) (h c ∙ rw unknown refl)
      | inr e ↦ rw (e, add-zero) (h n)
    ]

    add_edge-Tracks :
        Tracks nodes (add_edge (p, c) g).in_degree (λ n. f n + (if text_eq c n then 1 else 0))
    add_edge-Tracks = elim (Bool-cases (one_of c nodes)) [
      | inl e ↦ rw (add_edge-known e) (grown-Tracks e)
      | inr e ↦ rw (add_edge-unknown e) (same-Tracks e)
    ]

    grown-Lists :
        (l : Text → List Text)
        → Lists g.children l
        → Lists grown.children (λ q. l q ++ (if text_eq p q then c ∷ [] else []))
    grown-Lists l k q = elim (Bool-cases (text_eq p q)) [
      | inl e ↦ rw e (ap (λ (ts : List Text). ts ++ c ∷ []) (k p ∙ ap l ((text_eq_iff p q).0 e)))
      | inr e ↦ rw (e, append-nil) (k q)
    ]

    add_edge-Lists :
        (l : Text → List Text)
        → Lists g.children l
        → Lists
            (add_edge (p, c) g).children
            (λ q. l q ++ (if one_of c nodes && text_eq p q then c ∷ [] else []))
    add_edge-Lists l k = elim (Bool-cases (one_of c nodes)) [
      | inl e ↦ rw (add_edge-known e, e) (grown-Lists l k)
      | inr e ↦ rw (add_edge-unknown e, e) (λ q. k q ∙ sym (append-nil (l q)))
    ]

  add_edges-Tracks :
      (es : Edges) (g : Graph) (f : Text → ℕ)
      → Tracks nodes g.in_degree f
      → Tracks nodes (add_edges es g).in_degree (λ n. f n + pending es [] n)
  unfolding add_edges one_of
  add_edges-Tracks [] g f h n = rw add-zero (h n)
  add_edges-Tracks ((p, c) ∷ es) g f h n =
      add_edges-Tracks es (add_edge (p, c) g) (λ m. f m + (if text_eq c m then 1 else 0))
        (add_edge-Tracks p c g f h) n
      ∙ ap (λ (k : ℕ). if one_of n nodes then some k else none) (regroup (text_eq c n))
    where
      regroup :
          (b : Bool)
          → f n + (if b then 1 else 0) + pending es [] n
            ≡ f n + (if b && true then suc (pending es [] n) else pending es [] n)
      regroup true = omega arith
      regroup false = omega arith

  add_edges-Lists :
      (es : Edges) (g : Graph) (f : Text → ℕ) (l : Text → List Text)
      → Tracks nodes g.in_degree f
      → Lists g.children l
      → Lists (add_edges es g).children (λ p. l p ++ targets nodes es p)
  unfolding add_edges
  add_edges-Lists [] g f l h k q = k q ∙ sym (append-nil (l q))
  add_edges-Lists ((p, c) ∷ es) g f l h k q =
      add_edges-Lists es (add_edge (p, c) g) _ _ (add_edge-Tracks p c g f h)
        (add_edge-Lists p c g f h l k) q
      ∙ append_assoc (l q) (if one_of c nodes && text_eq p q then c ∷ [] else [])
          (targets nodes es q)
      ∙ ap (λ (ts : List Text). l q ++ ts) (joined (one_of c nodes && text_eq p q))
    where
      joined :
          (b : Bool)
          → (if b then c ∷ [] else []) ++ targets nodes es q
            ≡ (if b then c ∷ targets nodes es q else targets nodes es q)
      joined true = refl
      joined false = refl

all_to-lookup :
    {V : Type 0} (v : V) (ns : List Text) (n : Text)
    → all_to v ns n ≡ (if one_of n ns then some v else none)
unfolding one_of
all_to-lookup v [] n = refl
all_to-lookup v (m ∷ ns) n = elim (Bool-cases (text_eq m n)) [
  | inl e ↦ rw e refl
  | inr e ↦ rw e (all_to-lookup v ns n)
]

-- The graph of a plan.
pub graph_of-Tracks :
    (nodes : List Text) (es : Edges) → Tracks nodes (graph_of nodes es).in_degree (pending es [])
unfolding graph_of
graph_of-Tracks nodes es n =
    add_edges-Tracks nodes es (no_edges nodes) (λ n. 0) (λ n. all_to-lookup 0 nodes n) n
    ∙ ap (λ (k : ℕ). if one_of n nodes then some k else none) (zero-add (pending es [] n))

pub graph_of-children :
    (nodes : List Text) (es : Edges) (p : Text)
    → or_empty ((graph_of nodes es).children p) ≡ targets nodes es p
unfolding graph_of
graph_of-children nodes es p =
    add_edges-Lists nodes es (no_edges nodes) (λ n. 0) (λ n. []) (λ n. all_to-lookup 0 nodes n)
      none_yet p
  where
    none_yet : (q : Text) → or_empty (all_to [] nodes q) ≡ []
    none_yet q =
        ap or_empty (all_to-lookup [] nodes q)
        ∙ if-cases (λ (o : Option (List Text)). or_empty o ≡ []) (one_of q nodes) (λ _. refl)
            (λ _. refl)

pub targets-AllIn : (nodes : List Text) (es : Edges) (p : Text) → AllIn nodes (targets nodes es p)
targets-AllIn nodes [] p = tt
targets-AllIn nodes ((q, c) ∷ es) p = elim (Bool-cases (one_of c nodes)) [
  | inl e ↦ rw e (
      if-cases (AllIn nodes) (text_eq q p) (λ _. (e, targets-AllIn nodes es p))
        (λ _. targets-AllIn nodes es p))
  | inr e ↦ rw e (targets-AllIn nodes es p)
]

pub text_eq_swapped : (s t : Text) → text_eq s t ≡ text_eq t s
text_eq_swapped s t = ground (arith, text_eq_iff s t, text_eq_iff t s)

-- When a table is taken, the tables that wait for it have an open parent less for each edge from it.
pub pending-taken :
    (nodes : List Text) (es : Edges) (x : Text) (taken : List Text) (n : Text)
    → one_of x taken ≡ false
    → one_of n nodes ≡ true
    → pending es taken n ≡ pending es (x ∷ taken) n + count n (targets nodes es x)
unfolding one_of
pending-taken nodes [] x taken n new known = refl
pending-taken nodes ((p, c) ∷ es) x taken n new known = elim (Bool-cases (text_eq c n)) [
  | inl e ↦ elim (Bool-cases (text_eq p x)) [
    | inl f ↦
        rw
          (
            e,
            one_of_path ((text_eq_iff c n).0 e),
            one_of_new ((text_eq_iff p x).0 f),
            text_eq_swapped x p,
            f,
            e,
          )
          (omega (arith, pending-taken nodes es x taken n new known))
    | inr f ↦
        rw (e, one_of_path ((text_eq_iff c n).0 e), text_eq_swapped x p, f)
          (both (one_of p taken) (pending-taken nodes es x taken n new known))
  ]
  | inr e ↦ rw e (
      pending-taken nodes es x taken n new known
      ∙ ap (λ (k : ℕ). pending es (x ∷ taken) n + k)
          (if-cases (λ (ts : List Text). count n (targets nodes es x) ≡ count n ts)
            (one_of c nodes && text_eq p x) (λ _. rw e refl) (λ _. refl)))
]
  where
    one_of_path : c ≡ n → one_of c nodes ≡ true
    one_of_path q = rw q known

    one_of_new : p ≡ x → one_of p taken ≡ false
    one_of_new q = rw q new

    both :
        (b : Bool)
        → pending es taken n ≡ pending es (x ∷ taken) n + count n (targets nodes es x)
        → (if not b then suc (pending es taken n) else pending es taken n)
          ≡ (if not b then suc (pending es (x ∷ taken) n) else pending es (x ∷ taken) n)
            + count n (targets nodes es x)
    both true h = h
    both false h = omega arith

-- An edge from one table to another.
abbrev pub Edge : Text → Text → Edges → Type 0
Edge p c [] = ⊥
Edge p c ((q, d) ∷ es) = ((q ≡ p) × (d ≡ c)) ⊎ Edge p c es

-- An edge from a table that has not been taken is open.
pub pending-pos :
    (es : Edges) (taken : List Text) (p c : Text)
    → Edge p c es
    → one_of p taken ≡ false
    → 0 < pending es taken c
pending-pos [] taken p c e h = absurd e
pending-pos ((q, d) ∷ es) taken p c (inl (e, f)) h =
    let to : text_eq d c ≡ true = rw f (text_eq_refl c) in
    let from : one_of q taken ≡ false = rw e h in rw (to, from) (omega arith)
pending-pos ((q, d) ∷ es) taken p c (inr e) h =
    if-cases (λ (k : ℕ). 0 < k) (text_eq d c && not (one_of q taken)) (λ _. omega arith)
      (λ _. pending-pos es taken p c e h)
