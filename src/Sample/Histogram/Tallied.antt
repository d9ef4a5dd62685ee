-- ===== src/Sample/Histogram/Tallied.antt =====
-- The counts of the loop over the rows: `compute_modified_columns` of dbcli/src/delta_diff/sample.rs.
use hepta_dbcli.Prelude.{
  ℕ, zero, suc, ◌+◌, ◌<◌, ◌==◌, Bool, true, false, ◌&&◌, List, [], ◌∷◌, length, get_or, set,
  if◌then◌else◌, ◌≡◌, refl, sym, ap, ◌∙◌, arith, Bool-cases, inl, inr, ◌⊎◌, length-set, ==_iff,
}
use hepta_dbcli.Prelude.Sort.{count_if}
use hepta_dbcli.Report.{DiffRow}
use hepta_dbcli.Sample.Histogram.{Tally, is_modified, add_changes, tally_rows}

abbrev pub occurrences : ℕ → List ℕ → ℕ
occurrences j [] = 0
occurrences j (i ∷ is) = (if i == j then 1 else 0) + occurrences j is

abbrev pub AllBelow : ℕ → List ℕ → Type 0
AllBelow n [] = Unit
AllBelow n (i ∷ is) = (i < n) × AllBelow n is

-- The tally of columns that have changed as often as the function says.
pub record Tallied (n : ℕ) (f : ℕ → ℕ) (t : Tally) : Type 0 where
  pub sized : length t.counts ≡ n
  pub counted : (j : ℕ) → j < n → get_or t.counts j 0 ≡ f j
  pub quiet : t.any ≡ false → (j : ℕ) → j < n → f j ≡ 0
  pub loud : t.any ≡ true → (j : ℕ) × (j < n) × (0 < f j)

get_or-set :
    (cs : List ℕ) (i j v : ℕ)
    → i < length cs
    → get_or (set cs i v) j 0 ≡ (if i == j then v else get_or cs j 0)
get_or-set [] i j v h = elim h [ ]
get_or-set (c ∷ cs) zero zero v h = refl
get_or-set (c ∷ cs) zero (suc j) v h = ground arith
get_or-set (c ∷ cs) (suc i) zero v h = ground arith
get_or-set (c ∷ cs) (suc i) (suc j) v h = ground (arith, get_or-set cs i j v (omega (arith, h)))

module _ (n : ℕ) where
  pub Tallied-same :
      (f g : ℕ → ℕ) (t : Tally) → ((j : ℕ) → j < n → f j ≡ g j) → Tallied n f t → Tallied n g t
  Tallied-same f g t e h = record {
    sized = h.sized;
    counted = λ j k. h.counted j k ∙ e j k;
    quiet = λ q j k. sym (e j k) ∙ h.quiet q j k;
    loud = λ q. let r = h.loud q in (r.0, r.1, omega (arith, r.2, e r.0 r.1));
  }

  add_changes-Tallied :
      (is : List ℕ) (f : ℕ → ℕ) (t : Tally)
      → AllBelow n is
      → Tallied n f t
      → Tallied n (λ j. f j + occurrences j is) (add_changes is t)
  unfolding add_changes
  add_changes-Tallied [] f t b h = Tallied-same f _ t (λ j k. omega arith) h
  add_changes-Tallied (i ∷ is) f t b h =
      Tallied-same (λ j. (f j + (if i == j then 1 else 0)) + occurrences j is) _ _
        (λ j k. omega arith)
        (add_changes-Tallied is (λ j. f j + (if i == j then 1 else 0)) _ b.1
          (record {
            sized = length-set t.counts i _ ∙ h.sized;
            counted = λ j k.
                get_or-set t.counts i j (suc (get_or t.counts i 0)) (omega (arith, h.sized, b.0))
                ∙ one_more j k (Bool-cases (i == j));
            quiet = λ q. cc q;
            loud = λ q. (i, b.0, here (i == i) (ground arith));
          }))
    where
      one_more :
          (j : ℕ)
          → j < n
          → ((i == j) ≡ true) ⊎ ((i == j) ≡ false)
          → (if i == j then suc (get_or t.counts i 0) else get_or t.counts j 0)
            ≡ f j + (if i == j then 1 else 0)
      one_more j k (inl e) = rw e (omega (arith, h.counted i b.0, ap f ((==_iff i j).0 e)))
      one_more j k (inr e) = rw e (omega (arith, h.counted j k))

      here : (s : Bool) → s ≡ true → 0 < f i + (if s then 1 else 0)
      here true e = omega arith
      here false e = cc e

  -- The loop over the rows counts, for each column, the modified rows in which it has changed.
  module _ (changed_of : DiffRow → List ℕ) (differs : DiffRow → ℕ → Bool)
      (below : (row : DiffRow) → AllBelow n (changed_of row))
      (once : (row : DiffRow) (j : ℕ)
        → j < n
        → occurrences j (changed_of row) ≡ (if differs row j then 1 else 0)) where
    abbrev changes : List DiffRow → ℕ → ℕ
    changes rows j = count_if (λ row. is_modified row.status && differs row j) rows

    pub tally_rows-Tallied :
        (rows : List DiffRow) (f : ℕ → ℕ) (t : Tally)
        → Tallied n f t
        → Tallied n (λ j. f j + changes rows j) (tally_rows changed_of rows t)
    unfolding tally_rows
    tally_rows-Tallied [] f t h = Tallied-same f _ t (λ j k. omega arith) h
    tally_rows-Tallied (row ∷ rows) f t h = elim (Bool-cases (is_modified row.status)) [
      | inl e ↦ rw e (
          Tallied-same (λ j. (f j + occurrences j (changed_of row)) + changes rows j) _ _
            (λ j k. rw (once row j k) (counted_in (differs row j) (f j) (changes rows j)))
            (tally_rows-Tallied rows _ _ (add_changes-Tallied (changed_of row) f t (below row) h)))
      | inr e ↦ rw e (tally_rows-Tallied rows f t h)
    ]
      where
        counted_in :
            (d : Bool) (a b : ℕ) → (a + (if d then 1 else 0)) + b ≡ a + (if d then suc b else b)
        counted_in true a b = omega arith
        counted_in false a b = omega arith
