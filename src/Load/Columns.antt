-- ===== src/Load/Columns.antt =====
-- The columns of a load: validate_column_sets of dbcli/src/load/plan.rs, which compares a file's columns
-- with the table's, and align_row_with_defaults of dbcli/src/load/loader.rs.
pub mod Valid
pub mod Align
use hepta_dbcli.Prelude.{
  ℕ, zero, suc, Bool, true, false, not, ◌&&◌, ◌||◌, List, [], ◌∷◌, ◌++◌, map, Option, none, some,
  get_elem?, if◌then◌else◌,
}
use hepta_dbcli.Text.{Text, codes, eq_ignore_ascii_case}
use hepta_dbcli.Report.{Value, null, Row, join}
use hepta_dbcli.Load.Topo.{Outcome, ok, err, ◌>>=◌, NameMap, put}

pub record DbColumn : Type 0 where
  pub name : Text
  pub nullable : Bool
  pub has_default : Bool

pub record PlanEntry : Type 0 where
  pub table : Text
  pub schema : Option Text
  pub path : Text
  pub columns : List Text
  pub row_count : ℕ

pub record LoadPlan : Type 0 where
  pub entries : List PlanEntry

-- `names.iter().any(|fc| fc.eq_ignore_ascii_case(name))`
unfoldable pub named : Text → List Text → Bool
unfolding eq_ignore_ascii_case
named name [] = false
named name (fc ∷ fcs) = eq_ignore_ascii_case fc name || named name fcs

-- `iter().filter(p)`
abbrev pub filtered {ℓ} : {A : Type ℓ} → (A → Bool) → List A → List A
filtered p [] = []
filtered p (a ∷ as') = if p a then a ∷ filtered p as' else filtered p as'

abbrev pub names_of : List DbColumn → List Text
names_of = map (λ (c : DbColumn). c.name)

unfoldable pub missing : List DbColumn → List Text → List DbColumn
unfolding named
missing db_cols columns = filtered (λ (c : DbColumn). not (named c.name columns)) db_cols

-- `db_cols.iter().any(|c| c.name.eq_ignore_ascii_case(fc))`
unfoldable pub extra : List DbColumn → List Text → List Text
unfolding named
extra db_cols columns = filtered (λ (fc : Text). not (named fc (names_of db_cols))) columns

abbrev pub can_omit : DbColumn → Bool
can_omit c = c.nullable || c.has_default

abbrev pub allowed_of : Bool → List DbColumn → List DbColumn
allowed_of strict cs = if strict then [] else filtered can_omit cs

abbrev pub rejected_of : Bool → List DbColumn → List DbColumn
rejected_of strict cs = if strict then cs else filtered (λ (c : DbColumn). not (can_omit c)) cs

abbrev pub is_empty {ℓ} : {A : Type ℓ} → List A → Bool
is_empty [] = true
is_empty (a ∷ as') = false

abbrev pub part : Text → List Text → Text
part title [] = []
part title (n ∷ ns) = 10 ∷ codes "  " ++ title ++ join (codes ", ") (n ∷ ns)

unfoldable pub mismatch : Bool → Text → List DbColumn → List Text → Text
mismatch strict table gone more =
    codes "table '"
    ++ table
    ++ codes "': data file columns do not match the table columns"
    ++ (if strict
        then part (codes "missing in file: ") (names_of gone)
        else part (codes "missing in file (omitted, server default or NULL applies): ")
            (names_of (allowed_of strict gone))
          ++ part (codes "missing in file (NOT NULL without default): ")
              (names_of (rejected_of strict gone)))
    ++ part (codes "extra in file: ") more

-- The columns that an entry omits.
unfoldable pub check_entry : Bool → List DbColumn → PlanEntry → Outcome (List Text)
unfolding missing extra mismatch
check_entry strict db_cols entry =
    let gone = missing db_cols entry.columns in
    let more = extra db_cols entry.columns in
    if not (is_empty (rejected_of strict gone)) || not (is_empty more)
    then err (mismatch strict entry.table gone more)
    else ok (names_of (allowed_of strict gone))

abbrev pub no_metadata : Text → Text
no_metadata table =
    codes "table '" ++ table ++ codes "': no column metadata available for validation"

abbrev pub put_allowed : Text → List Text → NameMap (List Text) → NameMap (List Text)
put_allowed table allowed m = if is_empty allowed then m else put table allowed m

unfoldable pub validate_entries :
    Bool
    → NameMap (List DbColumn)
    → List PlanEntry
    → NameMap (List Text)
    → Outcome (NameMap (List Text))
unfolding check_entry
validate_entries strict db [] m = ok m
validate_entries strict db (entry ∷ entries) m = elim (db entry.table) [
  | none ↦ err (no_metadata entry.table)
  | some db_cols ↦ check_entry strict db_cols entry >>= λ allowed.
      validate_entries strict db entries (put_allowed entry.table allowed m)
]

unfoldable pub validate_column_sets :
    LoadPlan → NameMap (List DbColumn) → Bool → Outcome (NameMap (List Text))
unfolding validate_entries
validate_column_sets plan db strict = validate_entries strict db plan.entries (λ t. none)

-- `file_columns.iter().position(|fc| fc.eq_ignore_ascii_case(col))`
unfoldable pub column_at : Text → List Text → Option ℕ
unfolding eq_ignore_ascii_case
column_at col [] = none
column_at col (fc ∷ fcs) = elim (eq_ignore_ascii_case fc col) [
  | true ↦ some 0
  | false ↦ elim (column_at col fcs) [ none ↦ none | some i ↦ some (suc i) ]
]

abbrev pub or_null : Option Value → Value
or_null none = null
or_null (some v) = v

unfoldable pub aligned_cell : List Text → Row → List Text → Text → Outcome Value
unfolding column_at named
aligned_cell file_columns row allowed_missing col = elim (column_at col file_columns) [
  | some pos ↦ ok (or_null (get_elem? row pos))
  | none ↦
      if named col allowed_missing
      then ok null
      else err (codes "data file is missing column '" ++ col ++ codes "'")
]

unfoldable pub align_row_with_defaults : List Text → Row → List Text → List Text → Outcome Row
unfolding aligned_cell
align_row_with_defaults file_columns row [] allowed_missing = ok []
align_row_with_defaults file_columns row (col ∷ cols) allowed_missing =
    aligned_cell file_columns row allowed_missing col >>= λ v.
    align_row_with_defaults file_columns row cols allowed_missing >>= λ vs. ok (v ∷ vs)
