-- ===== src/Sample/Diverse.antt =====
-- The selection of dbcli/src/delta_diff/sample.rs as a whole.
use hepta_dbcli.Prelude.{
  or_false, ℕ, suc, ◌+◌, ◌==◌, ◌≤◌, ◌<◌, leb, Bool, false, not, ◌&&◌, ◌||◌, List, [], ◌∷◌, ◌++◌,
  Option, none, some, length, replicate, ◌≡◌, ◌∙◌, arith, Bool-cases, inl, inr, if◌then◌else◌,
  if-cases,
}
use hepta_dbcli.Prelude.Sort.{sort}
use hepta_dbcli.Decimals.{DecimalOps}
use hepta_dbcli.Report.{DiffRow, DiffStatus, missing_left, missing_right, modified}
use hepta_dbcli.Sample.{
  Report, SampleMode, prefix, diverse, range_from, Scan, on_row, scan_rows, nothing_seen, or_first,
  flattened, take_quota, take_uncovered, take_shapes, shapes_of, fill, no_columns,
  changed_value_indices, diverse_indices, select_sample_indices,
}
use hepta_dbcli.Sample.Picks.{
  AllBelow, Picks, RowsBelow, take_quota-Picks, take_uncovered-Picks, take_shapes-Picks, fill-Picks,
}
use hepta_dbcli.Sample.Selects.{Selected, sort-Selected, range_from-Selected}
use hepta_dbcli.Sample.Fill.{fill-enough}

module _ (total : ℕ) where
  abbrev OptionBelow : Option ℕ → Type 0
  OptionBelow none = Unit
  OptionBelow (some i) = i < total

  -- What the pass over the rows finds are rows.
  abbrev Found : Scan → Type 0
  Found st =
      OptionBelow st.first_modified
      × OptionBelow st.first_left
      × OptionBelow st.first_right
      × RowsBelow total st.changes

  or_first-below :
      (o : Option ℕ) (idx : ℕ) → idx < total → OptionBelow o → OptionBelow (or_first o idx)
  or_first-below none idx h k = h
  or_first-below (some i) idx h k = k

  RowsBelow-push :
      (ms : List (ℕ × List ℕ)) (i : ℕ) (cols : List ℕ)
      → i < total
      → RowsBelow total ms
      → RowsBelow total (ms ++ (i, cols) ∷ [])
  RowsBelow-push [] i cols h k = (h, tt)
  RowsBelow-push ((j, ds) ∷ ms) i cols h k = (k.0, RowsBelow-push ms i cols h k.1)

  module _ (aware : Bool) (changed_of : DiffRow → List ℕ) where
    on_row-Found :
        (s : DiffStatus) (idx : ℕ) (row : DiffRow) (st : Scan)
        → idx < total
        → Found st
        → Found (on_row aware changed_of s idx row st)
    on_row-Found modified idx row st h f = (
      or_first-below st.first_modified idx h f.0,
      f.1,
      f.2,
      if-cases (RowsBelow total) aware (λ _. RowsBelow-push st.changes idx (changed_of row) h f.3)
          (λ _. f.3),
    )
    on_row-Found missing_left idx row st h f =
        (f.0, or_first-below st.first_left idx h f.1, f.2, f.3)
    on_row-Found missing_right idx row st h f =
        (f.0, f.1, or_first-below st.first_right idx h f.2, f.3)

    scan_rows-Found :
        (idx : ℕ) (rows : List DiffRow) (st : Scan)
        → idx + length rows ≤ total
        → Found st
        → Found (scan_rows aware changed_of idx rows st)
    unfolding scan_rows
    scan_rows-Found idx [] st h f = f
    scan_rows-Found idx (row ∷ rows) st h f =
        scan_rows-Found (suc idx) rows (on_row aware changed_of row.status idx row st) (omega arith)
          (on_row-Found row.status idx row st (omega arith) f)

  flattened-AllBelow :
      (a b c : Option ℕ)
      → OptionBelow a
      → OptionBelow b
      → OptionBelow c
      → AllBelow total (flattened (a ∷ b ∷ c ∷ []))
  flattened-AllBelow none none none h k l = tt
  flattened-AllBelow none none (some c) h k l = (l, tt)
  flattened-AllBelow none (some b) none h k l = (k, tt)
  flattened-AllBelow none (some b) (some c) h k l = (k, (l, tt))
  flattened-AllBelow (some a) none none h k l = (h, tt)
  flattened-AllBelow (some a) none (some c) h k l = (h, (l, tt))
  flattened-AllBelow (some a) (some b) none h k l = (h, (k, tt))
  flattened-AllBelow (some a) (some b) (some c) h k l = (h, (k, (l, tt)))

module _ (ops : DecimalOps) (report : Report) where
  abbrev total_rows : ℕ
  total_rows = length report.sample_diffs

  abbrev aware : Bool
  aware = not report.hash_count && not (no_columns (length report.value_columns))

  abbrev found : Scan
  found = scan_rows aware (changed_value_indices ops report) 0 report.sample_diffs nothing_seen

  found-Found : Found total_rows found
  found-Found =
      scan_rows-Found total_rows aware (changed_value_indices ops report) 0 report.sample_diffs
        nothing_seen (omega arith) (tt, tt, tt, tt)

  diverse_indices-Selected :
      (n : ℕ) → n ≤ total_rows → Selected n total_rows (diverse_indices ops report n)
  unfolding diverse_indices
  diverse_indices-Selected n h =
      let slots = flattened (found.first_modified ∷ found.first_left ∷ found.first_right ∷ []) in
      let quota =
        take_quota n found.changes slots
          (record { picked = []; covered = replicate (length report.value_columns) false }) in
      let quota_picks =
        take_quota-Picks n total_rows found.changes slots
          (record { picked = []; covered = replicate (length report.value_columns) false })
          (flattened-AllBelow total_rows found.first_modified found.first_left found.first_right
            found-Found.0 found-Found.1 found-Found.2)
          (omega arith, tt, tt) in
      let covering = take_uncovered n found.changes quota in
      let covering_picks =
        take_uncovered-Picks n total_rows found.changes quota found-Found.3 quota_picks in
      let seen = shapes_of (length report.value_columns) found.changes covering.picked in
      let shaped = take_shapes n (length report.value_columns) found.changes seen covering.picked in
      let shaped_picks =
        take_shapes-Picks n total_rows (length report.value_columns) found.changes seen
          covering.picked found-Found.3 covering_picks in
      chosen_all n shaped h shaped_picks
    where
      chosen_all :
          (n : ℕ) (shaped : List ℕ)
          → n ≤ total_rows
          → Picks n total_rows shaped
          → Selected n total_rows (sort leb (fill n (range_from 0 total_rows) shaped))
      chosen_all n shaped h p =
          let filled =
            fill-Picks n total_rows (range_from 0 total_rows) shaped
              (range_from-Selected total_rows 0 total_rows (omega arith)).2 p in
          let out =
            sort-Selected total_rows (fill n (range_from 0 total_rows) shaped) filled.1 filled.2 in
          (
            out.0
                ∙ exactly (length (fill n (range_from 0 total_rows) shaped)) filled.0
                    (fill-enough n total_rows shaped h),
            out.1,
            out.2,
          )
        where
          exactly : (k : ℕ) → k ≤ n → n ≤ k → k ≡ n
          exactly k a b = omega arith

  abbrev wanted : ℕ → ℕ
  wanted n = if n == 0 || leb total_rows n then total_rows else n

  -- The selection of rows to show, in either mode: row numbers of the report in ascending order, none twice,
  -- as many as wanted; all of them, if none is asked for or the report has no more.
  pub select_sample_indices-Selected :
      (n : ℕ) (mode : SampleMode)
      → Selected (wanted n) total_rows (select_sample_indices ops report n mode)
  unfolding select_sample_indices
  select_sample_indices-Selected n mode = elim (Bool-cases (n == 0 || leb total_rows n)) [
    | inl e ↦
        rw (select_sample_indices, e) (range_from-Selected total_rows 0 total_rows (omega arith))
    | inr e ↦
        rw (select_sample_indices, e) (by_mode mode (fewer n total_rows (or_false (n == 0) _ e).1))
  ]
    where
      fewer : (n k : ℕ) → leb k n ≡ false → n ≤ k
      fewer n k h = ground arith

      by_mode :
          (m : SampleMode)
          → n ≤ total_rows
          → Selected n total_rows
              (elim m [ prefix ↦ range_from 0 n | diverse ↦ diverse_indices ops report n ])
      by_mode prefix h = range_from-Selected total_rows 0 n (omega arith)
      by_mode diverse h = diverse_indices-Selected n h
