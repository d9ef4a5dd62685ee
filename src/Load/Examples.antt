-- ===== src/Load/Examples.antt =====
-- The order of three small tables, a plan of two, and the theorems at concrete inputs.
use hepta_dbcli.Prelude.{
  ℕ, if◌then◌else◌, arith, inr, true, false, some, none, ◌++◌, ◌↔◌, List, ◌≡◌, refl, [], ◌∷◌, inl,
}
use hepta_dbcli.Text.{Text, codes, one_of, text_eq}
use hepta_dbcli.TextSet.{Distinct}
use hepta_dbcli.Report.{null, string, Row}
use hepta_dbcli.Load.Columns.{DbColumn, PlanEntry, LoadPlan, validate_column_sets}
use hepta_dbcli.Load.Columns.Valid.{EachFits, validate_column_sets_iff}
use hepta_dbcli.Load.Build.{TableFile, fk_edges, build_plan}
use hepta_dbcli.Load.Build.Ordered.{Plans, build_plan-Plans}
use hepta_dbcli.Load.Topo.{NameMap, ok, err, stable_topo_order}
use hepta_dbcli.Load.Topo.Degrees.{Edges}
use hepta_dbcli.Load.Topo.Order.{LoadsInOrder}
use hepta_dbcli.Load.Topo.Ranked.{Inside, Ranked, stable_topo_order-loads}
use hepta_dbcli.Load.Topo.Answers.{Answers, stable_topo_order-Answers, stable_topo_order-outside}

abbrev tables : List Text
tables = codes "items" ∷ codes "orders" ∷ codes "users" ∷ []

abbrev references : Edges
references = (codes "orders", codes "items") ∷ (codes "users", codes "orders") ∷ []

abbrev to_countries : Edges
to_countries = (codes "countries", codes "users") ∷ []

tables-Distinct : Distinct tables
unfolding one_of
tables-Distinct = (refl, (refl, (refl, tt)))

users_first :
    stable_topo_order tables references ≡ ok (codes "users" ∷ codes "orders" ∷ codes "items" ∷ [])
unfolding stable_topo_order
users_first = refl

cycle :
    stable_topo_order tables ((codes "items", codes "users") ∷ references)
    ≡ err (
        codes
          "foreign key cycle between tables: items -> orders -> users (cannot determine load order)")
unfolding stable_topo_order
cycle = refl

stable_topo_order-Answers_example : Answers tables references (stable_topo_order tables references)
stable_topo_order-Answers_example = stable_topo_order-Answers tables references tables-Distinct

-- There is no file for the countries, which the users refer to.
stable_topo_order-outside_example : (m : Text) × (stable_topo_order tables to_countries ≡ err m)
unfolding one_of
stable_topo_order-outside_example =
    stable_topo_order-outside tables to_countries (codes "countries") (codes "users")
      tables-Distinct (inl (refl, refl)) refl refl

abbrev rank : Text → ℕ
unfolding text_eq
rank t = if text_eq t (codes "users") then 0 else if text_eq t (codes "orders") then 1 else 2

references-Inside : Inside tables references
unfolding one_of
references-Inside p c (inl (e, f)) k = rw (← e) refl
references-Inside p c (inr (inl (e, f))) k = rw (← e) refl
references-Inside p c (inr (inr impossible)) k = elim impossible [ ]

references-Ranked : Ranked tables references rank
unfolding rank
references-Ranked p c (inl (e, f)) k = rw (← e, ← f) (omega arith)
references-Ranked p c (inr (inl (e, f))) k = rw (← e, ← f) (omega arith)
references-Ranked p c (inr (inr impossible)) k = elim impossible [ ]

stable_topo_order-loads_example :
    (order : List Text) × (stable_topo_order tables references ≡ ok order)
    × LoadsInOrder tables references [] order
    × ((n : Text) → one_of n tables ≡ true → one_of n order ≡ true)
stable_topo_order-loads_example =
    stable_topo_order-loads tables references rank references-Inside references-Ranked
      tables-Distinct

abbrev file : Text → List Text → TableFile
file table columns = record {
  table = table;
  columns = columns;
  row_count = 1;
  source_path = table ++ codes ".csv";
}

abbrev two_files : List TableFile
two_files =
    file (codes "items") (codes "id" ∷ codes "order_id" ∷ [])
    ∷ file (codes "orders") (codes "ID" ∷ [])
    ∷ []

abbrev fk_columns : List Text
fk_columns = codes "TABLE_NAME" ∷ codes "referenced_table" ∷ []

abbrev fk_rows : List Row
fk_rows =
    (string (codes "items") ∷ string (codes "orders") ∷ [])
    ∷ (string (codes "orders") ∷ string (codes "orders") ∷ [])
    ∷ (null ∷ string (codes "orders") ∷ [])
    ∷ []

abbrev one_edge : Edges
one_edge = (codes "orders", codes "items") ∷ []

edges_read : fk_edges fk_columns fk_rows ≡ ok one_edge
unfolding fk_edges
edges_read = refl

build_plan-Plans_example :
    Plans two_files none fk_columns fk_rows
      (λ t. none)
      (build_plan two_files none fk_columns fk_rows (λ t. none))
unfolding one_of
build_plan-Plans_example =
    build_plan-Plans two_files none fk_columns fk_rows (λ t. none) (refl, (refl, tt))

abbrev entry : PlanEntry
entry = record {
  table = codes "orders";
  schema = none;
  path = codes "orders.csv";
  columns = codes "ID" ∷ codes "note" ∷ [];
  row_count = 1;
}

abbrev plan : LoadPlan
plan = record { entries = entry ∷ [] }

-- The table has a column more than the file, which may be NULL.
abbrev known_columns : NameMap (List DbColumn)
known_columns t = some (
    (record { name = codes "id"; nullable = false; has_default = false })
    ∷ (record { name = codes "note"; nullable = true; has_default = false })
    ∷ (record { name = codes "at"; nullable = true; has_default = false })
    ∷ [])

strict_refused :
    validate_column_sets plan known_columns true
    ≡ err (
        codes "table 'orders': data file columns do not match the table columns"
        ++ 10 ∷ codes "  missing in file: at")
unfolding validate_column_sets
strict_refused = refl

validate_column_sets_iff_example :
    ((r : NameMap (List Text)) × (validate_column_sets plan known_columns false ≡ ok r))
    ↔ EachFits false known_columns plan.entries
validate_column_sets_iff_example = validate_column_sets_iff plan known_columns false
