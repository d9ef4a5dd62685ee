-- ===== src/Load/Build.antt =====
-- fk_edges and build_plan of dbcli/src/load/plan.rs: from the data files and the foreign keys of the
-- database to the entries of a plan, in the order in which they are loaded.
pub mod Refers
pub mod Ordered
use hepta_dbcli.Prelude.{
  ℕ, Bool, true, false, List, [], ◌∷◌, ◌++◌, map, Option, none, some, get_elem?, if◌then◌else◌,
}
use hepta_dbcli.Prelude.Sort.{sort}
use hepta_dbcli.Text.{Text, codes, text_eq}
use hepta_dbcli.Report.{Value, string, Row, text_le}
use hepta_dbcli.Load.Topo.{Outcome, ok, err, ◌>>=◌, NameMap, stable_topo_order}
use hepta_dbcli.Load.Topo.Degrees.{Edges}
use hepta_dbcli.Load.Columns.{PlanEntry, LoadPlan, column_at}

pub record TableFile : Type 0 where
  pub table : Text
  pub columns : List Text
  pub row_count : ℕ
  pub source_path : Text

-- `as_str` of a cell that may be missing
abbrev pub as_str : Option Value → Option Text
as_str (some (string t)) = some t
as_str _ = none

abbrev pub edge_between : Option Text → Option Text → Option (Text × Text)
edge_between (some parent) (some child) =
    if text_eq parent child then none else some (parent, child)
edge_between _ _ = none

abbrev pub cons_some {ℓ} : {A : Type ℓ} → Option A → List A → List A
cons_some none as' = as'
cons_some (some a) as' = a ∷ as'

abbrev pub edges_at : ℕ → ℕ → List Row → Edges
edges_at child parent [] = []
edges_at child parent (row ∷ rows) =
    cons_some (edge_between (as_str (get_elem? row parent)) (as_str (get_elem? row child)))
      (edges_at child parent rows)

abbrev pub wanted_column : Text → List Text → Outcome ℕ
unfolding column_at
wanted_column wanted columns = elim (column_at wanted columns) [
  | none ↦ err (codes "FK query result missing column '" ++ wanted ++ codes "'")
  | some i ↦ ok i
]

-- The edges go from the table that is referred to.
unfoldable pub fk_edges : List Text → List Row → Outcome Edges
unfolding wanted_column text_eq
fk_edges columns [] = ok []
fk_edges columns (row ∷ rows) = wanted_column (codes "table_name") columns >>= λ child.
    wanted_column (codes "referenced_table") columns >>= λ parent.
    ok (edges_at child parent (row ∷ rows))

-- `files.into_iter().map(..).collect()`: of two files of one table the later one stays.
abbrev pub by_table : List TableFile → NameMap TableFile
by_table [] t = none
by_table (f ∷ fs) t = elim (by_table fs t) [
  | some g ↦ some g
  | none ↦ if text_eq f.table t then some f else none
]

abbrev pub without : {V : Type 0} → Text → NameMap V → NameMap V
without k m t = if text_eq k t then none else m t

abbrev pub schema_of : Option Text → Option (Option Text) → Option Text
schema_of (some s) listed = some s
schema_of none none = none
schema_of none (some s) = s

abbrev pub entry_of : Option Text → NameMap (Option Text) → Text → TableFile → PlanEntry
entry_of schema listed table file = record {
  schema = schema_of schema (listed table);
  table = file.table;
  columns = file.columns;
  row_count = file.row_count;
  path = file.source_path;
}

unfoldable pub entries_of :
    Option Text → NameMap (Option Text) → NameMap TableFile → List Text → List PlanEntry
unfolding text_eq
entries_of schema listed m [] = []
entries_of schema listed m (t ∷ ts) = elim (m t) [
  | none ↦ entries_of schema listed (without t m) ts
  | some file ↦ entry_of schema listed t file ∷ entries_of schema listed (without t m) ts
]

abbrev pub sorted_names : List TableFile → List Text
sorted_names files = sort text_le (map (λ (f : TableFile). f.table) files)

unfoldable pub build_plan :
    List TableFile → Option Text → List Text → List Row → NameMap (Option Text) → Outcome LoadPlan
unfolding fk_edges stable_topo_order entries_of sort text_le text_eq
build_plan files schema fk_columns fk_rows listed = fk_edges fk_columns fk_rows >>= λ edges.
    stable_topo_order (sorted_names files) edges >>= λ order.
    ok (record { entries = entries_of schema listed (by_table files) order })
