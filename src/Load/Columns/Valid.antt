-- ===== src/Load/Columns/Valid.antt =====
-- Which plans the validation of the columns accepts.
use hepta_dbcli.Prelude.{
  Bool, true, false, not, ◌&&◌, ◌||◌, List, [], ◌∷◌, none, some, if◌then◌else◌, ◌≡◌, ◌↔◌, refl,
  Bool-cases, Option-cases, inl, inr,
}
use hepta_dbcli.Text.{Text}
use hepta_dbcli.Load.Topo.{Outcome, ok, err, panic, out_of_fuel, ◌>>=◌, NameMap}
use hepta_dbcli.Load.Columns.{
  DbColumn, PlanEntry, LoadPlan, named, filtered, names_of, missing, extra, can_omit, allowed_of,
  rejected_of, is_empty, check_entry, put_allowed, validate_entries, validate_column_sets,
}

abbrev pub Every {ℓ} : {A : Type ℓ} → (A → Bool) → List A → Type 0
Every p [] = Unit
Every p (a ∷ as') = (p a ≡ true) × Every p as'

-- A column of the table that the file has or, unless the mode is strict, that can be left out.
abbrev pub absorbed : Bool → List Text → DbColumn → Bool
absorbed strict columns c = named c.name columns || not strict && can_omit c

-- The columns of the table are known, it absorbs the file's, and it has all of them.
abbrev pub Fits : Bool → NameMap (List DbColumn) → PlanEntry → Type 0
Fits strict db entry =
    (cols : List DbColumn) × (db entry.table ≡ some cols)
    × Every (absorbed strict entry.columns) cols
    × Every (λ (fc : Text). named fc (names_of cols)) entry.columns

abbrev pub EachFits : Bool → NameMap (List DbColumn) → List PlanEntry → Type 0
EachFits strict db [] = Unit
EachFits strict db (e ∷ es) = Fits strict db e × EachFits strict db es

nothing_left {ℓ} :
    {A : Type ℓ} (p : A → Bool) (as' : List A)
    → (is_empty (filtered (λ a. not (p a)) as') ≡ true) ↔ Every p as'
nothing_left p [] = (λ _. tt, λ _. refl)
nothing_left p (a ∷ as') = elim (Bool-cases (p a)) [
  | inl e ↦ rw e ((λ h. (refl, (nothing_left p as').0 h)), λ h. (nothing_left p as').1 h.1)
  | inr e ↦ rw e ((λ h. cc), λ h. cc (h.0))
]

none_rejected :
    (strict : Bool) (columns : List Text) (cols : List DbColumn)
    → (is_empty (rejected_of strict (missing cols columns)) ≡ true)
      ↔ Every (absorbed strict columns) cols
unfolding missing
none_rejected true columns [] = ((λ _. tt), λ _. refl)
none_rejected false columns [] = ((λ _. tt), λ _. refl)
none_rejected true columns (c ∷ cols) = elim (Bool-cases (named c.name columns)) [
  | inl e ↦ rw e (
    (λ h. (refl, (none_rejected true columns cols).0 h)),
    λ h. (none_rejected true columns cols).1 h.1,
  )
  | inr e ↦ rw e ((λ h. cc), λ h. cc (h.0))
]
none_rejected false columns (c ∷ cols) = elim (Bool-cases (named c.name columns)) [
  | inl e ↦ rw e (
    (λ h. (refl, (none_rejected false columns cols).0 h)),
    λ h. (none_rejected false columns cols).1 h.1,
  )
  | inr e ↦ rw e (elim (Bool-cases (can_omit c)) [
    | inl f ↦ rw f (
      (λ h. (refl, (none_rejected false columns cols).0 h)),
      λ h. (none_rejected false columns cols).1 h.1,
    )
    | inr f ↦ rw f ((λ h. cc), λ h. cc (h.0))
  ])
]

module _ (strict : Bool) (cols : List DbColumn) (entry : PlanEntry) where
  abbrev Checked : Type 0
  Checked =
      Every (absorbed strict entry.columns) cols
      × Every (λ (fc : Text). named fc (names_of cols)) entry.columns

  none_extra :
      (is_empty (extra cols entry.columns) ≡ true)
      ↔ Every (λ (fc : Text). named fc (names_of cols)) entry.columns
  unfolding extra
  none_extra = nothing_left (λ (fc : Text). named fc (names_of cols)) entry.columns

  passes : Checked → (allowed : List Text) × (check_entry strict cols entry ≡ ok allowed)
  unfolding check_entry
  passes h = (
    names_of (allowed_of strict (missing cols entry.columns)),
    rw ((none_rejected strict entry.columns cols).1 h.0, none_extra.1 h.1) refl,
  )

  passed : (allowed : List Text) → check_entry strict cols entry ≡ ok allowed → Checked
  unfolding check_entry
  passed allowed h =
      let both =
        no_error (is_empty (rejected_of strict (missing cols entry.columns)))
          (is_empty (extra cols entry.columns)) _ _ h in
      ((none_rejected strict entry.columns cols).0 both.0, none_extra.0 both.1)
    where
      no_error :
          (a b : Bool) (m : Text) (r : List Text)
          → (if not a || not b then err m else ok r) ≡ ok allowed
          → (a ≡ true) × (b ≡ true)
      no_error true true m r h = (refl, refl)
      no_error true false m r h = cc
      no_error false b m r h = cc

module _ (strict : Bool) (db : NameMap (List DbColumn)) where
  accepts :
      (entries : List PlanEntry) (m : NameMap (List Text))
      → EachFits strict db entries
      → (r : NameMap (List Text)) × (validate_entries strict db entries m ≡ ok r)
  unfolding validate_entries
  accepts [] m h = (m, refl)
  accepts (e ∷ es) m ((cols, known, absorbs, has), h) =
      let first = passes strict cols e (absorbs, has) in
      let rest = accepts es (put_allowed e.table first.0 m) h in
      (rest.0, rw (validate_entries, known, first.1) rest.1)

  accepted :
      (entries : List PlanEntry) (m r : NameMap (List Text))
      → validate_entries strict db entries m ≡ ok r
      → EachFits strict db entries
  unfolding validate_entries
  accepted [] m r h = tt
  accepted (e ∷ es) m r h = elim (Option-cases (db e.table)) [
    | inl none_known ↦ cc (rw (validate_entries, none_known) at h)
    | inr (cols, known) ↦
        checked (λ n. accepted es n r) cols known (check_entry strict cols e) refl
          (rw (validate_entries, known) at h)
  ]
    where
      checked :
          ((n : NameMap (List Text))
            → validate_entries strict db es n ≡ ok r
            → EachFits strict db es)
          → (cols : List DbColumn) (known : db e.table ≡ some cols) (o : Outcome (List Text))
          → check_entry strict cols e ≡ o
          → (o >>= λ allowed. validate_entries strict db es (put_allowed e.table allowed m)) ≡ ok r
          → EachFits strict db (e ∷ es)
      checked rest cols known (ok allowed) p q =
          let fits = passed strict cols e allowed p in
          ((cols, known, fits.0, fits.1), rest (put_allowed e.table allowed m) q)
      checked rest cols known (err t) p q = cc
      checked rest cols known panic p q = cc
      checked rest cols known out_of_fuel p q = cc

-- The validation of the columns accepts a plan just if for every entry the columns of the table are known,
-- each of them is in the file, up to the case of ASCII letters, or the mode is not strict and it may be
-- NULL or has a default, and each column of the file is one of the table's.
pub validate_column_sets_iff :
    (plan : LoadPlan) (db : NameMap (List DbColumn)) (strict : Bool)
    → ((r : NameMap (List Text)) × (validate_column_sets plan db strict ≡ ok r))
      ↔ EachFits strict db plan.entries
unfolding validate_column_sets
validate_column_sets_iff plan db strict = (
  (λ r. accepted strict db plan.entries (λ t. none) r.0 r.1),
  accepts strict db plan.entries (λ t. none),
)
