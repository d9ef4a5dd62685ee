-- ===== src/Load/Build/Refers.antt =====
-- The foreign keys that the database lists, and the edges that `fk_edges` of dbcli/src/load/plan.rs makes.
use hepta_dbcli.Prelude.{
  ℕ, List, [], ◌∷◌, ◌++◌, Option, none, some, get_elem?, ◌≡◌, ◌≢◌, ◌↔◌, refl, sym, ap, ◌∙◌,
  Bool-cases, inl, inr, ◌⊎◌,
}
use mathlib.Core.Path.{subst}
use hepta_dbcli.Text.{Text, codes, text_eq}
use hepta_dbcli.Text.Laws.{text_eq_iff}
use hepta_dbcli.Report.{Value, null, boolean, integer, decimal, string, nested, Row}
use hepta_dbcli.Load.Topo.{Outcome, ok, err, panic, out_of_fuel}
use hepta_dbcli.Load.Topo.Degrees.{Edges, Edge}
use hepta_dbcli.Load.Columns.{column_at}
use hepta_dbcli.Load.Build.{as_str, edge_between, cons_some, edges_at, wanted_column, fk_edges}

abbrev pub child_column : Text
child_column = codes "table_name"

abbrev pub parent_column : Text
parent_column = codes "referenced_table"

-- One of the rows has the name of the parent in its place, and that of another table, the child, in its own.
abbrev pub SomeRow : ℕ → ℕ → Text → Text → List Row → Type 0
SomeRow child parent p c [] = ⊥
SomeRow child parent p c (row ∷ rows) =
    ((get_elem? row parent ≡ some (string p)) × (get_elem? row child ≡ some (string c)) × (p ≢ c))
    ⊎ SomeRow child parent p c rows

-- The database lists a foreign key from the table `c` to another table `p`.
abbrev pub RefersTo : List Text → List Row → Text → Text → Type 0
unfolding column_at
RefersTo columns rows p c =
    (child : ℕ) × (parent : ℕ) × (column_at child_column columns ≡ some child)
    × (column_at parent_column columns ≡ some parent)
    × SomeRow child parent p c rows

-- The rows are not read, as a column is missing.
abbrev pub Unread : List Text → List Row → Type 0
unfolding column_at
Unread columns [] = ⊥
Unread columns (row ∷ rows) =
    (column_at child_column columns ≡ none) ⊎ (column_at parent_column columns ≡ none)

unsome : {s t : Text} → ◌≡◌ {A = Option Text} (some s) (some t) → s ≡ t
unsome e = cc e

unsome_place : {i j : ℕ} → ◌≡◌ {A = Option ℕ} (some i) (some j) → i ≡ j
unsome_place e = cc e

as_str-string : (x : Option Value) (t : Text) → as_str x ≡ some t → x ≡ some (string t)
as_str-string none t h = cc
as_str-string (some null) t h = cc
as_str-string (some (boolean b)) t h = cc
as_str-string (some (integer z)) t h = cc
as_str-string (some (decimal d)) t h = cc
as_str-string (some (nested n)) t h = cc
as_str-string (some (string s)) t h = ap (λ (r : Text). some (string r)) (unsome h)

module _ (p c : Text) (es : Edges) where
  edge_between-Edge :
      (a b : Option Text)
      → Edge p c (cons_some (edge_between a b) es)
        ↔ (((a ≡ some p) × (b ≡ some c) × (p ≢ c)) ⊎ Edge p c es)
  unfolding text_eq
  edge_between-Edge none b = (inr, λ h. elim h [ inl l ↦ cc (l.0) | inr r ↦ r ])
  edge_between-Edge (some s) none = (inr, λ h. elim h [ inl l ↦ cc (l.1) | inr r ↦ r ])
  edge_between-Edge (some s) (some t) = elim (Bool-cases (text_eq s t)) [
    | inl e ↦ rw e (
      inr,
      λ h. elim h [
        | inl l ↦ absurd (l.2 (sym (unsome l.0) ∙ (text_eq_iff s t).0 e ∙ unsome l.1))
        | inr r ↦ r
      ],
    )
    | inr e ↦ rw e (
      (λ h. elim h [
        | inl l ↦ inl (
          ap some l.0,
          ap some l.1,
          λ same. cc (sym e ∙ (text_eq_iff s t).1 (l.0 ∙ same ∙ sym l.1)),
        )
        | inr r ↦ inr r
      ]),
      (λ h. elim h [ inl l ↦ inl (unsome l.0, unsome l.1) | inr r ↦ inr r ]),
    )
  ]

module _ (child parent : ℕ) (p c : Text) where
  edges_at-SomeRow :
      (rows : List Row) → Edge p c (edges_at child parent rows) ↔ SomeRow child parent p c rows
  edges_at-SomeRow [] = (λ h. h, λ h. h)
  edges_at-SomeRow (row ∷ rows) =
      let rest = edges_at-SomeRow rows in
      let here =
        edge_between-Edge p c (edges_at child parent rows) (as_str (get_elem? row parent))
          (as_str (get_elem? row child)) in
      (
        λ h. elim (here.0 h) [
          | inl l ↦ inl (
            as_str-string (get_elem? row parent) p l.0,
            as_str-string (get_elem? row child) c l.1,
            l.2,
          )
          | inr r ↦ inr (rest.0 r)
        ],
        λ h.
            here.1
              (elim h [ inl l ↦ inl (ap as_str l.0, ap as_str l.1, l.2) | inr r ↦ inr (rest.1 r) ]),
      )

-- What the edges say is what the database lists, or a column is missing.
unfoldable pub Lists : List Text → List Row → Outcome Edges → Type 0
unfolding RefersTo Unread
Lists columns rows (ok edges) = (p c : Text) → Edge p c edges ↔ RefersTo columns rows p c
Lists columns rows (err m) = Unread columns rows
Lists columns rows panic = ⊥
Lists columns rows out_of_fuel = ⊥

abbrev missing : Text → Text
missing w = codes "FK query result missing column '" ++ w ++ codes "'"

module _ (columns : List Text) where
  wanted_column-some :
      (w : Text) (i : ℕ) → column_at w columns ≡ some i → wanted_column w columns ≡ ok i
  unfolding wanted_column
  wanted_column-some w i e = rw (wanted_column, e) refl

  wanted_column-none :
      (w : Text) → column_at w columns ≡ none → wanted_column w columns ≡ err (missing w)
  unfolding wanted_column
  wanted_column-none w e = rw (wanted_column, e) refl

  module _ (row : Row) (rows : List Row) where
    first_missing :
        column_at child_column columns ≡ none
        → fk_edges columns (row ∷ rows) ≡ err (missing child_column)
    unfolding fk_edges
    first_missing e = rw (fk_edges, wanted_column-none child_column e) refl

    second_missing :
        (i : ℕ)
        → column_at child_column columns ≡ some i
        → column_at parent_column columns ≡ none
        → fk_edges columns (row ∷ rows) ≡ err (missing parent_column)
    unfolding fk_edges
    second_missing i e f =
        rw (fk_edges, wanted_column-some child_column i e, wanted_column-none parent_column f) refl

    both_found :
        (i j : ℕ)
        → column_at child_column columns ≡ some i
        → column_at parent_column columns ≡ some j
        → fk_edges columns (row ∷ rows) ≡ ok (edges_at i j (row ∷ rows))
    unfolding fk_edges
    both_found i j e f =
        rw (fk_edges, wanted_column-some child_column i e, wanted_column-some parent_column j f)
          refl

pub fk_edges-Lists :
    (columns : List Text) (rows : List Row) → Lists columns rows (fk_edges columns rows)
unfolding fk_edges Lists
fk_edges-Lists columns [] = λ p c. (λ h. absurd h, λ (i, j, e, f, s). absurd s)
fk_edges-Lists columns (row ∷ rows) = found _ _ refl refl
  where
    found :
        (i j : Option ℕ)
        → column_at child_column columns ≡ i
        → column_at parent_column columns ≡ j
        → Lists columns (row ∷ rows) (fk_edges columns (row ∷ rows))
    found none j e f =
        subst (Lists columns (row ∷ rows)) (sym (first_missing columns row rows e)) (inl e)
    found (some i) none e f =
        subst (Lists columns (row ∷ rows)) (sym (second_missing columns row rows i e f)) (inr f)
    found (some i) (some j) e f =
        subst (Lists columns (row ∷ rows)) (sym (both_found columns row rows i j e f)) λ p c.
          let t = edges_at-SomeRow i j p c (row ∷ rows) in
          (
            λ h. (i, j, e, f, t.0 h),
            λ (k, l, x, y, s). t.1 (
                subst (λ m. SomeRow m j p c (row ∷ rows)) (unsome_place (sym x ∙ e))
                  (subst (λ m. SomeRow k m p c (row ∷ rows)) (unsome_place (sym y ∙ f)) s)),
          )
