-- ===== src/Sample/Histogram.antt =====
-- How often each column has changed: `compute_modified_columns` of dbcli/src/delta_diff/sample.rs.
pub mod Tallied
pub mod Columns
pub mod Ordered
pub mod Transposed
use hepta_dbcli.Prelude.{
  ℕ, suc, ltb, ◌==◌, Bool, true, false, ◌&&◌, ◌||◌, List, [], ◌∷◌, Option, none, some, length,
  get_or, set, replicate, if◌then◌else◌,
}
use hepta_dbcli.Prelude.Sort.{sort}
use hepta_dbcli.Text.{Text}
use hepta_dbcli.Decimals.{DecimalOps}
use hepta_dbcli.Report.{DiffRow, DiffStatus, missing_left, missing_right, modified, text_le}
use hepta_dbcli.Sample.{Report, changed_value_indices}

pub record ColumnChangeCount : Type 0 where
  pub name : Text
  pub count : ℕ

-- The locals of the loop over the rows.
pub record Tally : Type 0 where
  pub counts : List ℕ
  pub any : Bool

abbrev pub is_modified : DiffStatus → Bool
is_modified modified = true
is_modified missing_left = false
is_modified missing_right = false

unfoldable pub add_changes : List ℕ → Tally → Tally
add_changes [] t = t
add_changes (i ∷ is) t =
    add_changes is (record { counts = set t.counts i (suc (get_or t.counts i 0)); any = true })

unfoldable pub tally_rows : (DiffRow → List ℕ) → List DiffRow → Tally → Tally
unfolding add_changes
tally_rows changed_of [] t = t
tally_rows changed_of (row ∷ rows) t =
    tally_rows changed_of rows
      (if is_modified row.status then add_changes (changed_of row) t else t)

unfoldable pub changed_columns : List Text → List ℕ → List ColumnChangeCount
changed_columns [] counts = []
changed_columns (name ∷ names) [] = []
changed_columns (name ∷ names) (count ∷ counts) =
    let rest = changed_columns names counts in
    if ltb 0 count then (record { name = name; count = count }) ∷ rest else rest

-- The highest count first, then by name.
abbrev pub by_count : ColumnChangeCount → ColumnChangeCount → Bool
unfolding text_le
by_count a b = ltb b.count a.count || a.count == b.count && text_le a.name b.name

unfoldable pub compute_modified_columns : DecimalOps → Report → Option (List ColumnChangeCount)
unfolding tally_rows changed_columns changed_value_indices by_count sort
compute_modified_columns ops report =
    let value_len = length report.value_columns in
    let t =
      tally_rows (changed_value_indices ops report) report.sample_diffs
        (record { counts = replicate value_len 0; any = false }) in
    if report.hash_count || value_len == 0
    then none
    else if t.any
    then some (sort by_count (changed_columns report.value_columns t.counts))
    else none
