-- ===== src/Sample.antt =====
-- The rows of a report that are shown: the selection of dbcli/src/delta_diff/sample.rs. The report is the
-- part of it that the selection reads.
pub mod Picks
pub mod Selects
mod Fill
pub mod Diverse
pub mod Histogram
mod Examples
use Prim.Native.Nat.{bit_or}
use hepta_dbcli.Prelude.{
  ℕ, zero, suc, ◌+◌, ◌*◌, ◌/◌, ◌%◌, ◌^◌, ◌==◌, leb, Bool, true, false, not, ◌&&◌, ◌||◌, List, [],
  ◌∷◌, ◌++◌, map, Option, none, some, length, get_elem?, get_or, set, replicate, if◌then◌else◌,
}
use hepta_dbcli.Prelude.Sort.{sort}
use hepta_dbcli.Text.{Text, codes, one_of, take_until, trim, lower_ascii}
use hepta_dbcli.Decimals.{DecimalOps}
use hepta_dbcli.Report.{Value, Row, DiffRow, DiffStatus, missing_left, missing_right, modified}
use hepta_dbcli.ColumnType.{is_numeric_type}
use hepta_dbcli.RowDiff.{values_equal}

-- `hash_count` is the payload of rows that are hashes with their counts.
pub record Report : Type 0 where
  pub hash_count : Bool
  pub key_columns : List Text
  pub value_columns : List Text
  pub column_data_types : List Text
  pub sample_diffs : List DiffRow

pub data SampleMode : Type 0 where
  prefix : SampleMode
  diverse : SampleMode

abbrev pub cell_at : Option Row → ℕ → Option Value
cell_at none i = none
cell_at (some r) i = get_elem? r i

-- `(from..from + n)`
abbrev pub range_from : ℕ → ℕ → List ℕ
range_from i zero = []
range_from i (suc n) = i ∷ range_from (suc i) n

abbrev pub member : ℕ → List ℕ → Bool
member x [] = false
member x (y ∷ ys) = y == x || member x ys

abbrev pub words_equal : List ℕ → List ℕ → Bool
words_equal [] [] = true
words_equal (a ∷ as') (b ∷ bs) = a == b && words_equal as' bs
words_equal _ _ = false

abbrev pub seen_before : List ℕ → List (List ℕ) → Bool
seen_before w [] = false
seen_before w (v ∷ vs) = words_equal v w || seen_before w vs

abbrev or_no_type : Option Text → Text
or_no_type none = []
or_no_type (some t) = t

abbrev pub value_data_type : Report → ℕ → ℕ → Text
value_data_type report key_len value_idx =
    or_no_type (get_elem? report.column_data_types (key_len + value_idx))

module _ (ops : DecimalOps) where
  abbrev pub cells_differ : Option Value → Option Value → Text → Bool
  unfolding is_numeric_type
  cells_differ none none data_type = false
  cells_differ (some l) (some r) data_type = not (values_equal ops l r (is_numeric_type data_type))
  cells_differ _ _ data_type = true

  abbrev pub differs_at : Report → DiffRow → ℕ → Bool
  unfolding cells_differ
  differs_at report row i =
      let key_len = length report.key_columns in
      cells_differ (cell_at row.left (key_len + i)) (cell_at row.right (key_len + i))
        (value_data_type report key_len i)

  abbrev pub changed_among : Report → DiffRow → List ℕ → List ℕ
  unfolding differs_at
  changed_among report row [] = []
  changed_among report row (i ∷ is) =
      let rest = changed_among report row is in if differs_at report row i then i ∷ rest else rest

  unfoldable pub changed_value_indices : Report → DiffRow → List ℕ
  unfolding changed_among
  changed_value_indices report row =
      changed_among report row (range_from 0 (length report.value_columns))

abbrev pub or_first : Option ℕ → ℕ → Option ℕ
or_first none idx = some idx
or_first (some i) idx = some i

-- What the one pass over the rows finds: the first row of each status, and the modified rows with the
-- columns that have changed.
pub record Scan : Type 0 where
  pub first_modified : Option ℕ
  pub first_left : Option ℕ
  pub first_right : Option ℕ
  pub changes : List (ℕ × List ℕ)

abbrev pub nothing_seen : Scan
nothing_seen = record { first_modified = none; first_left = none; first_right = none; changes = [] }

module _ (column_aware : Bool) (changed_of : DiffRow → List ℕ) where
  abbrev pub on_row : DiffStatus → ℕ → DiffRow → Scan → Scan
  on_row modified idx row st = record st {
    first_modified = or_first st.first_modified idx;
    changes = if column_aware then st.changes ++ (idx, changed_of row) ∷ [] else st.changes;
  }
  on_row missing_left idx row st = record st { first_left = or_first st.first_left idx }
  on_row missing_right idx row st = record st { first_right = or_first st.first_right idx }

  unfoldable pub scan_rows : ℕ → List DiffRow → Scan → Scan
  scan_rows idx [] st = st
  scan_rows idx (row ∷ rows) st = scan_rows (suc idx) rows (on_row row.status idx row st)

-- The rows that are picked, which are also the set `chosen`, and the columns that they cover.
pub record Chosen : Type 0 where
  pub picked : List ℕ
  pub covered : List Bool

abbrev pub cover : List ℕ → List Bool → List Bool
cover [] covered = covered
cover (c ∷ cs) covered = cover cs (set covered c true)

abbrev pub changes_of : ℕ → List (ℕ × List ℕ) → Option (List ℕ)
changes_of slot [] = none
changes_of slot ((i, cols) ∷ ms) = if i == slot then some cols else changes_of slot ms

abbrev pub or_no_columns : Option (List ℕ) → List ℕ
or_no_columns none = []
or_no_columns (some cols) = cols

abbrev pub flattened : List (Option ℕ) → List ℕ
flattened [] = []
flattened (none ∷ os) = flattened os
flattened (some i ∷ os) = i ∷ flattened os

-- Whether any of the columns is not covered.
abbrev pub uncovered : List ℕ → List Bool → Bool
uncovered [] covered = false
uncovered (c ∷ cs) covered = not (get_or covered c false) || uncovered cs covered

-- The words of the mask, in which the bits of the columns are set.
abbrev pub set_bits : List ℕ → List ℕ → List ℕ
set_bits [] bits = bits
set_bits (i ∷ is) bits =
    set_bits is (set bits (i / 64) (bit_or (get_or bits (i / 64) 0) (2 ^ (i % 64))))

unfoldable pub bitmask : List ℕ → ℕ → List ℕ
bitmask changed value_len = set_bits changed (replicate (value_len / 64 + 1) 0)

module _ (n : ℕ) where
  -- A loop over the quota of the statuses. Behind a `break` the rest changes nothing.
  unfoldable pub take_quota : List (ℕ × List ℕ) → List ℕ → Chosen → Chosen
  take_quota changes [] st = st
  take_quota changes (slot ∷ slots) st = elim (leb n (length st.picked) || member slot st.picked) [
    | true ↦ take_quota changes slots st
    | false ↦ take_quota changes slots (record {
      picked = st.picked ++ slot ∷ [];
      covered = cover (or_no_columns (changes_of slot changes)) st.covered;
    })
  ]

  unfoldable pub take_uncovered : List (ℕ × List ℕ) → Chosen → Chosen
  take_uncovered [] st = st
  take_uncovered ((idx, cols) ∷ ms) st =
      elim ((leb n (length st.picked) || member idx st.picked) || not (uncovered cols st.covered)) [
        | true ↦ take_uncovered ms st
        | false ↦
            take_uncovered ms
              (record { picked = st.picked ++ idx ∷ []; covered = cover cols st.covered })
      ]

  unfoldable pub take_shapes : ℕ → List (ℕ × List ℕ) → List (List ℕ) → List ℕ → List ℕ
  unfolding bitmask
  take_shapes value_len [] seen picked = picked
  take_shapes value_len ((idx, cols) ∷ ms) seen picked =
      elim ((leb n (length picked) || member idx picked)
        || seen_before (bitmask cols value_len) seen) [
          | true ↦ take_shapes value_len ms seen picked
          | false ↦ take_shapes value_len ms (bitmask cols value_len ∷ seen) (picked ++ idx ∷ [])
        ]

  unfoldable pub fill : List ℕ → List ℕ → List ℕ
  fill [] picked = picked
  fill (idx ∷ rest) picked = elim (leb n (length picked) || member idx picked) [
    | true ↦ fill rest picked
    | false ↦ fill rest (picked ++ idx ∷ [])
  ]

abbrev pub shapes_of : ℕ → List (ℕ × List ℕ) → List ℕ → List (List ℕ)
unfolding bitmask
shapes_of value_len changes [] = []
shapes_of value_len changes (p ∷ ps) = elim (changes_of p changes) [
  | none ↦ shapes_of value_len changes ps
  | some cols ↦ bitmask cols value_len ∷ shapes_of value_len changes ps
]

abbrev pub no_columns : ℕ → Bool
no_columns value_len = value_len == 0

-- `old[i]` for each of the numbers, which panics where there is no such row
abbrev pub cons_row : Option DiffRow → Option (List DiffRow) → Option (List DiffRow)
cons_row (some row) (some rows) = some (row ∷ rows)
cons_row _ _ = none

abbrev pub rows_at : List DiffRow → List ℕ → Option (List DiffRow)
rows_at old [] = some []
rows_at old (i ∷ is) = cons_row (get_elem? old i) (rows_at old is)

abbrev pub with_sample : Report → Option (List DiffRow) → Option Report
with_sample report none = none
with_sample report (some rows) = some (record report { sample_diffs = rows })

module _ (ops : DecimalOps) where
  abbrev pub scan_report : Report → Scan
  unfolding scan_rows changed_value_indices
  scan_report report =
      scan_rows (not report.hash_count && not (no_columns (length report.value_columns)))
        (changed_value_indices ops report) 0 report.sample_diffs nothing_seen

  unfoldable pub diverse_indices : Report → ℕ → List ℕ
  unfolding scan_report take_quota take_uncovered take_shapes shapes_of fill sort
  diverse_indices report n =
      let found = scan_report report in
      let slots = flattened (found.first_modified ∷ found.first_left ∷ found.first_right ∷ []) in
      let quota =
        take_quota n found.changes slots
          (record { picked = []; covered = replicate (length report.value_columns) false }) in
      let covering = take_uncovered n found.changes quota in
      let shaped =
        take_shapes n (length report.value_columns) found.changes
          (shapes_of (length report.value_columns) found.changes covering.picked) covering.picked in
      sort leb (fill n (range_from 0 (length report.sample_diffs)) shaped)

  unfoldable pub select_sample_indices : Report → ℕ → SampleMode → List ℕ
  unfolding diverse_indices
  select_sample_indices report n mode =
      if n == 0 || leb (length report.sample_diffs) n
      then range_from 0 (length report.sample_diffs)
      else elim mode [ prefix ↦ range_from 0 n | diverse ↦ diverse_indices report n ]

  unfoldable pub retain_sample : Report → ℕ → SampleMode → Option Report
  unfolding select_sample_indices
  retain_sample report n mode =
      with_sample report (rows_at report.sample_diffs (select_sample_indices report n mode))
