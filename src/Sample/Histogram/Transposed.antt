-- ===== src/Sample/Histogram/Transposed.antt =====
-- The histogram of dbcli/src/delta_diff/sample.rs, column by column.
use hepta_dbcli.Prelude.{
  ℕ, zero, suc, ◌+◌, ◌<◌, ◌≤◌, ◌==◌, Bool, true, false, ◌&&◌, List, [], ◌∷◌, Option, none, some,
  length, get_or, replicate, if◌then◌else◌, ◌≡◌, refl, sym, ap, ◌∙◌, arith, Bool-cases, inl, inr,
  length-replicate, ==_iff,
}
use mathlib.Core.Path.{subst}
use mathlib.Core.List.{Permᴰ}
use native.Mathlib.Nat.{zero-add}
use hepta_dbcli.Prelude.Sort.{count_if, sort, sort-Perm}
use hepta_dbcli.Text.{Text}
use hepta_dbcli.Decimals.{DecimalOps}
use hepta_dbcli.Report.{DiffRow}
use hepta_dbcli.Sample.{Report, range_from, differs_at, changed_among, changed_value_indices}
use hepta_dbcli.Sample.Histogram.{
  ColumnChangeCount, Tally, is_modified, tally_rows, changed_columns, by_count,
  compute_modified_columns,
}
use hepta_dbcli.Sample.Histogram.Tallied.{
  occurrences, AllBelow, Tallied, Tallied-same, tally_rows-Tallied,
}
use hepta_dbcli.Sample.Histogram.Ordered.{Ordered, sort-Ordered, sort-some}
use hepta_dbcli.Sample.Histogram.Columns.{
  column_counts, changed_columns-counts, column_counts-none, column_counts-some,
}

abbrev pub sorted_if_any : List ColumnChangeCount → Option (List ColumnChangeCount)
unfolding by_count
sorted_if_any [] = none
sorted_if_any (c ∷ cs) = some (sort by_count (c ∷ cs))

module _ (ops : DecimalOps) (report : Report) where
  module _ (row : DiffRow) where
    among-AllBelow :
        (i m n : ℕ) → i + m ≤ n → AllBelow n (changed_among ops report row (range_from i m))
    unfolding changed_among
    among-AllBelow i zero n h = tt
    among-AllBelow i (suc m) n h = elim (Bool-cases (differs_at ops report row i)) [
      | inl e ↦ rw e (omega (arith, h), among-AllBelow (suc i) m n (omega (arith, h)))
      | inr e ↦ rw e (among-AllBelow (suc i) m n (omega (arith, h)))
    ]

    among-before :
        (i m j : ℕ) → j < i → occurrences j (changed_among ops report row (range_from i m)) ≡ 0
    unfolding changed_among
    among-before i zero j h = refl
    among-before i (suc m) j h = elim (Bool-cases (differs_at ops report row i)) [
      | inl e ↦ rw e (ground (arith, among-before (suc i) m j (omega (arith, h))))
      | inr e ↦ rw e (among-before (suc i) m j (omega (arith, h)))
    ]

    among-once :
        (i m j : ℕ)
        → i ≤ j
        → j < i + m
        → occurrences j (changed_among ops report row (range_from i m))
          ≡ (if differs_at ops report row j then 1 else 0)
    unfolding changed_among
    among-once i zero j h k = absurd (omega (arith, h, k))
    among-once i (suc m) j h k = elim (Bool-cases (i == j)) [
      | inl e ↦
          subst
            (λ (x : ℕ).
              occurrences x (changed_among ops report row (range_from i (suc m)))
              ≡ (if differs_at ops report row x then 1 else 0))
            ((==_iff i j).0 e)
            (elim (Bool-cases (differs_at ops report row i)) [
              | inl d ↦ rw d (ground (arith, among-before (suc i) m i (omega arith)))
              | inr d ↦ rw d (among-before (suc i) m i (omega arith))
            ])
      | inr e ↦
          let rest = among-once (suc i) m j (ground arith) (omega (arith, k)) in
          elim (Bool-cases (differs_at ops report row i)) [
            | inl d ↦ rw (d, e, zero-add) rest
            | inr d ↦ rw d rest
          ]
    ]

  -- The modified rows in which a column has changed.
  abbrev pub changes_at : ℕ → ℕ
  changes_at i =
      count_if (λ row. is_modified row.status && differs_at ops report row i) report.sample_diffs

  abbrev width : ℕ
  width = length report.value_columns

  abbrev start : Tally
  start = record { counts = replicate width 0; any = false }

  abbrev end : Tally
  end = tally_rows (changed_value_indices ops report) report.sample_diffs start

  start-Tallied : Tallied width (λ j. 0) start
  start-Tallied = record {
    sized = length-replicate width 0;
    counted = λ j k. zeros width j 0;
    quiet = λ q j k. refl;
    loud = λ q. cc q;
  }
    where
      zeros : (m j z : ℕ) → get_or (replicate m z) j z ≡ z
      zeros zero j z = refl
      zeros (suc m) zero z = refl
      zeros (suc m) (suc j) z = zeros m j z

  end-Tallied : Tallied width changes_at end
  unfolding changed_value_indices
  end-Tallied =
      Tallied-same width (λ j. 0 + changes_at j) changes_at end (λ j k. zero-add (changes_at j))
        (tally_rows-Tallied width (changed_value_indices ops report) (differs_at ops report)
          (λ row. among-AllBelow row 0 width width (omega arith))
          (λ row j k. among-once row 0 width j (omega arith) (omega (arith, k))) report.sample_diffs
          (λ j. 0) start start-Tallied)

  columns : List ColumnChangeCount
  columns = column_counts changes_at 0 report.value_columns

  from_zero : (j : ℕ) → changes_at (0 + j) ≡ changes_at j
  from_zero j = ap changes_at (zero-add j)

  end-columns : changed_columns report.value_columns end.counts ≡ columns
  unfolding columns
  end-columns =
      changed_columns-counts changes_at 0 report.value_columns end.counts end-Tallied.sized
        (λ j k. end-Tallied.counted j k ∙ sym (from_zero j))

  listed :
      (any : Bool)
      → end.any ≡ any
      → (if any then some (sort by_count columns) else none) ≡ sorted_if_any columns
  unfolding columns sorted_if_any
  listed true e =
      let r = end-Tallied.loud e in
      let c =
        column_counts-some changes_at 0 report.value_columns r.0 r.1
          (omega (arith, r.2, from_zero r.0)) in
      rw c.2 refl
  listed false e =
      rw
        (column_counts-none changes_at 0 report.value_columns
          (λ j k. from_zero j ∙ end-Tallied.quiet e j k))
        refl

  compute_modified_columns-counts :
      report.hash_count ≡ false
      → compute_modified_columns ops report
        ≡ sorted_if_any (column_counts changes_at 0 report.value_columns)
  unfolding compute_modified_columns columns
  compute_modified_columns-counts h = elim (Bool-cases (width == 0)) [
    | inl e ↦ rw (h, e) (empty report.value_columns ((==_iff width 0).0 e))
    | inr e ↦ rw (h, e, end-columns) (listed end.any refl)
  ]
    where
      empty :
          (names : List Text)
          → length names ≡ 0
          → none ≡ sorted_if_any (column_counts changes_at 0 names)
      empty [] z = refl
      empty (n ∷ names) z = absurd (omega (arith, z))

  -- The columns with their counts, in order; or none, if no column has changed.
  abbrev pub Lists : Option (List ColumnChangeCount) → Type 0
  Lists none = column_counts changes_at 0 report.value_columns ≡ []
  Lists (some cs) =
      Permᴰ cs (column_counts changes_at 0 report.value_columns) × Ordered cs × (0 < length cs)

  -- The histogram of a report whose rows are not hashes lists the columns that have changed, each with the
  -- number of modified rows in which its cells differ: a higher count comes before a lower one, and of the
  -- columns with one count the names ascend. There is no histogram only if no column has changed.
  pub compute_modified_columns-Lists :
      report.hash_count ≡ false → Lists (compute_modified_columns ops report)
  unfolding sorted_if_any
  compute_modified_columns-Lists h =
      subst Lists (sym (compute_modified_columns-counts h))
        (sorted (column_counts changes_at 0 report.value_columns) refl)
    where
      sorted :
          (cs : List ColumnChangeCount)
          → column_counts changes_at 0 report.value_columns ≡ cs
          → Lists (sorted_if_any cs)
      sorted [] e = e
      sorted (c ∷ cs) e = (
        subst (λ l. Permᴰ (sort by_count (c ∷ cs)) l) (sym e) (sort-Perm by_count (c ∷ cs)),
        sort-Ordered (c ∷ cs),
        sort-some c cs,
      )
