-- ===== src/Sample/Examples.antt =====
-- A small report, and the theorem at a concrete input.
use hepta_dbcli.Prelude.{ℕ, ◌==◌, true, false, none, some, [], ◌∷◌, ◌≡◌, refl}
use hepta_dbcli.Prelude.Int.{pos}
use hepta_dbcli.Text.{codes, drop_end_while, drop_while, is_space}
use hepta_dbcli.Number.{parse_u64, order_of}
use hepta_dbcli.Decimals.{DecimalOps}
use hepta_dbcli.Report.{
  string, integer, Row, single, DiffRow, missing_left, missing_right, modified, digits,
}
use hepta_dbcli.ColumnType.{is_numeric_type}
use hepta_dbcli.Sample.{
  retain_sample, Report, diverse, bitmask, diverse_indices, select_sample_indices,
}
use hepta_dbcli.RowDiff.{values_equal}
use hepta_dbcli.Sample.Histogram.{compute_modified_columns}
use hepta_dbcli.Sample.Histogram.Transposed.{Lists, compute_modified_columns-Lists}
use hepta_dbcli.Sample.Selects.{Selected}
use hepta_dbcli.Sample.Diverse.{select_sample_indices-Selected}

abbrev whole : DecimalOps
whole = record { Number = ℕ; parse = parse_u64; same = ◌==◌; order = order_of; show = digits }

abbrev row : ℕ → Row
row k = integer (pos k) ∷ string (codes "a") ∷ []

abbrev only_left : ℕ → DiffRow
only_left k = record {
  key = single (integer (pos k));
  left = some (row k);
  right = none;
  status = missing_right;
  confirmed = true;
}

abbrev only_right : ℕ → DiffRow
only_right k = record {
  key = single (integer (pos k));
  left = none;
  right = some (row k);
  status = missing_left;
  confirmed = true;
}

abbrev report : Report
report = record {
  hash_count = false;
  key_columns = codes "id" ∷ [];
  value_columns = codes "name" ∷ [];
  column_data_types = codes "BIGINT" ∷ codes "varchar(20)" ∷ [];
  sample_diffs = only_left 1 ∷ only_left 2 ∷ only_left 3 ∷ only_right 4 ∷ [];
}

-- The first row of each status, and the report's first rows for the rest.
each_status : diverse_indices whole report 2 ≡ 0 ∷ 3 ∷ []
unfolding diverse_indices
each_status = refl

two_kept :
    retain_sample whole report 2 diverse
    ≡ some (record report { sample_diffs = only_left 1 ∷ only_right 4 ∷ [] })
unfolding retain_sample
two_kept = refl

two_words : bitmask (1 ∷ 64 ∷ []) 70 ≡ 2 ∷ 1 ∷ []
unfolding bitmask
two_words = refl

select_sample_indices-Selected_example : Selected 3 4 (select_sample_indices whole report 3 diverse)
select_sample_indices-Selected_example = select_sample_indices-Selected whole report 3 diverse

abbrev renamed : ℕ → DiffRow
renamed k = record {
  key = single (integer (pos k));
  left = some (row k);
  right = some (integer (pos k) ∷ string (codes "b") ∷ []);
  status = modified;
  confirmed = true;
}

abbrev with_changes : Report
with_changes = record report { sample_diffs = renamed 1 ∷ only_left 2 ∷ renamed 3 ∷ [] }

numeric_type : is_numeric_type (codes " Decimal (10, 2)") ≡ true
unfolding is_numeric_type drop_end_while drop_while is_space
numeric_type = refl

two_renamed :
    compute_modified_columns whole with_changes
    ≡ some ((record { name = codes "name"; count = 2 }) ∷ [])
unfolding compute_modified_columns values_equal drop_end_while drop_while is_space
two_renamed = refl

compute_modified_columns-Lists_example :
    Lists whole with_changes (compute_modified_columns whole with_changes)
compute_modified_columns-Lists_example = compute_modified_columns-Lists whole with_changes refl
