-- ===== src/Sample/Histogram/Columns.antt =====
-- The columns that `compute_modified_columns` of dbcli/src/delta_diff/sample.rs lists.
use hepta_dbcli.Prelude.{
  ℕ, zero, suc, ◌+◌, ◌<◌, ltb, true, List, [], ◌∷◌, length, get_or, if◌then◌else◌, ◌≡◌, refl, sym,
  ap, ◌∙◌, arith, Bool-cases, inl, inr,
}
use mathlib.Core.Path.{subst}
use native.Mathlib.Nat.{add-zero}
use hepta_dbcli.Text.{Text}
use hepta_dbcli.Sample.Histogram.{ColumnChangeCount, changed_columns}

-- The columns with a count, by the function that counts them.
abbrev pub column_counts : (ℕ → ℕ) → ℕ → List Text → List ColumnChangeCount
column_counts f i [] = []
column_counts f i (name ∷ names) =
    let rest = column_counts f (suc i) names in
    if ltb 0 (f i) then (record { name = name; count = f i }) ∷ rest else rest

module _ (f : ℕ → ℕ) where
  pub changed_columns-counts :
      (i : ℕ) (names : List Text) (counts : List ℕ)
      → length counts ≡ length names
      → ((j : ℕ) → j < length names → get_or counts j 0 ≡ f (i + j))
      → changed_columns names counts ≡ column_counts f i names
  unfolding changed_columns
  changed_columns-counts i [] counts e h = refl
  changed_columns-counts i (name ∷ names) [] e h = absurd (omega (arith, e))
  changed_columns-counts i (name ∷ names) (c ∷ counts) e h =
      rw
        (
          h 0 (omega arith),
          add-zero i,
          changed_columns-counts (suc i) names counts (omega (arith, e))
              (λ j k. h (suc j) (omega (arith, k)) ∙ ap f (omega arith)),
        )
        refl

  pub column_counts-none :
      (i : ℕ) (names : List Text)
      → ((j : ℕ) → j < length names → f (i + j) ≡ 0)
      → column_counts f i names ≡ []
  column_counts-none i [] h = refl
  column_counts-none i (name ∷ names) h =
      rw
        (
          ap f (sym (add-zero i)) ∙ h 0 (omega arith),
          column_counts-none (suc i) names
              (λ j k. ap f (omega arith) ∙ h (suc j) (omega (arith, k))),
        )
        refl

  pub column_counts-some :
      (i : ℕ) (names : List Text) (j : ℕ)
      → j < length names
      → 0 < f (i + j)
      → (c : ColumnChangeCount) × (cs : List ColumnChangeCount) × (column_counts f i names ≡ c ∷ cs)
  column_counts-some i [] j k h = elim k [ ]
  column_counts-some i (name ∷ names) zero k h = (
    record { name = name; count = f i },
    column_counts f (suc i) names,
    rw (positive (f i) (rw (add-zero i) at h)) refl,
  )
    where
      positive : (a : ℕ) → 0 < a → ltb 0 a ≡ true
      positive a e = ground arith
  column_counts-some i (name ∷ names) (suc j) k h =
      let r =
        column_counts-some (suc i) names j (omega (arith, k))
          (subst (λ (m : ℕ). 0 < f m) (omega arith) h) in
      elim (Bool-cases (ltb 0 (f i))) [
        | inl e ↦ (record { name = name; count = f i }, column_counts f (suc i) names, rw e refl)
        | inr e ↦ rw e r
      ]
