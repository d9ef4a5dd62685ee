-- ===== src/Load/Topo.antt =====
-- `stable_topo_order` of dbcli/src/load/plan.rs: Kahn's algorithm, with the alphabetically first name
-- among those that are ready.
pub mod Relax
pub mod Degrees
pub mod Waiting
pub mod Order
pub mod Plan
pub mod Answers
pub mod Ranked
use hepta_dbcli.Prelude.{
  ℕ, zero, suc, ◌==◌, Bool, true, false, not, ◌&&◌, List, [], ◌∷◌, ◌++◌, Option, none, some, length,
  if◌then◌else◌,
}
use hepta_dbcli.Text.{Text, codes, text_eq, one_of}
use hepta_dbcli.TextSet.{set_insert}
use hepta_dbcli.Report.{join}

-- The result, an `expect` that fails, or no fuel left (the theorems exclude both).
pub data Outcome {ℓ} (A : Type ℓ) : Type ℓ where
  ok : A → Outcome A
  err : Text → Outcome A
  panic : Outcome A
  out_of_fuel : Outcome A

infixl 5 ◌>>=◌
abbrev pub ◌>>=◌ {ℓ κ} : {A : Type ℓ} {B : Type κ} → Outcome A → (A → Outcome B) → Outcome B
ok a >>= f = f a
err e >>= f = err e
panic >>= f = panic
out_of_fuel >>= f = out_of_fuel

-- A map from names.
abbrev pub NameMap : Type 0 → Type 0
NameMap V = Text → Option V

abbrev pub put : {V : Type 0} → Text → V → NameMap V → NameMap V
put k v m j = if text_eq k j then some v else m j

abbrev pub or_zero : Option ℕ → ℕ
or_zero none = 0
or_zero (some n) = n

abbrev pub or_empty : Option (List Text) → List Text
or_empty none = []
or_empty (some ts) = ts

abbrev pub is_some {ℓ} : {A : Type ℓ} → Option A → Bool
is_some none = false
is_some (some a) = true

pub record Graph : Type 0 where
  pub in_degree : NameMap ℕ
  pub children : NameMap (List Text)

abbrev pub all_to : {V : Type 0} → V → List Text → NameMap V
all_to v [] = λ j. none
all_to v (n ∷ ns) = put n v (all_to v ns)

unfoldable pub add_edge : Text × Text → Graph → Graph
unfolding text_eq
add_edge (from, to) g =
    if is_some (g.in_degree to)
    then record {
      in_degree = put to (suc (or_zero (g.in_degree to))) g.in_degree;
      children = put from (or_empty (g.children from) ++ to ∷ []) g.children;
    }
    else g

unfoldable pub add_edges : List (Text × Text) → Graph → Graph
unfolding add_edge
add_edges [] g = g
add_edges (e ∷ es) g = add_edges es (add_edge e g)

abbrev pub no_edges : List Text → Graph
no_edges nodes = record { in_degree = all_to 0 nodes; children = all_to [] nodes }

unfoldable pub graph_of : List Text → List (Text × Text) → Graph
unfolding add_edges text_eq
graph_of nodes edges = add_edges edges (no_edges nodes)

abbrev pub is_zero : Option ℕ → Bool
is_zero (some zero) = true
is_zero _ = false

-- The names with no edge into them, each of which is one key of the map.
unfoldable pub initially_ready : NameMap ℕ → List Text → List Text
unfolding set_insert one_of
initially_ready deg [] = []
initially_ready deg (n ∷ ns) =
    let rest = initially_ready deg ns in
    if is_zero (deg n) && not (one_of n ns) then set_insert n rest else rest

-- The inner loop: the children of a name that has been taken.
unfoldable pub relax : List Text → NameMap ℕ → List Text → Outcome (NameMap ℕ × List Text)
unfolding text_eq set_insert
relax [] deg ready = ok (deg, ready)
relax (c ∷ cs) deg ready = elim (deg c) [
  | none ↦ panic
  | some zero ↦ panic
  | some (suc d) ↦ relax cs (put c d deg) (if d == 0 then set_insert c ready else ready)
]

-- The outer loop, on fuel: one unit for a name is enough.
unfoldable pub take_ready : NameMap (List Text) → ℕ → NameMap ℕ → List Text → Outcome (List Text)
unfolding relax
take_ready children fuel deg [] = ok []
take_ready children zero deg (name ∷ ready) = out_of_fuel
take_ready children (suc fuel) deg (name ∷ ready) =
    relax (or_empty (children name)) deg ready >>= λ r.
    take_ready children fuel r.0 r.1 >>= λ rest. ok (name ∷ rest)

abbrev pub left_out : List Text → List Text → List Text
left_out order [] = []
left_out order (n ∷ ns) = if one_of n order then left_out order ns else n ∷ left_out order ns

unfoldable pub complete : List Text → List Text → Outcome (List Text)
unfolding one_of
complete nodes order =
    if length order == length nodes
    then ok order
    else err (
        codes "foreign key cycle between tables: "
        ++ join (codes " -> ") (left_out order nodes)
        ++ codes " (cannot determine load order)")

unfoldable pub stable_topo_order : List Text → List (Text × Text) → Outcome (List Text)
unfolding graph_of initially_ready take_ready complete
stable_topo_order nodes edges =
    let g = graph_of nodes edges in
    take_ready g.children (length nodes) g.in_degree (initially_ready g.in_degree nodes)
    >>= complete nodes
