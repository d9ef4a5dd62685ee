-- ===== src/Load/Build/Ordered.antt =====
-- The entries of a plan stand in the order in which their tables can be loaded.
use hepta_dbcli.Prelude.{
  or_false, or_swapped, Bool, true, false, ◌||◌, List, [], ◌∷◌, map, Option, none, some,
  if◌then◌else◌, ◌≡◌, refl, sym, ap, ◌∙◌, Bool-cases, inl, inr, ◌⊎◌, ◌↔◌,
}
use mathlib.Core.Path.{subst}
use hepta_dbcli.Prelude.Sort.{insert_sorted, sort}
use hepta_dbcli.Text.{Text, text_eq, one_of}
use hepta_dbcli.Text.Laws.{text_eq_iff}
use hepta_dbcli.TextSet.{Distinct}
use hepta_dbcli.Report.{Row, text_le}
use hepta_dbcli.Load.Topo.{Outcome, ok, err, panic, out_of_fuel, ◌>>=◌, NameMap, stable_topo_order}
use hepta_dbcli.Load.Topo.Degrees.{Edges, Edge, text_eq_swapped}
use hepta_dbcli.Load.Topo.Order.{LoadsInOrder}
use hepta_dbcli.Load.Topo.Answers.{Answers, stable_topo_order-Answers}
use hepta_dbcli.Load.Columns.{PlanEntry, LoadPlan}
use hepta_dbcli.Load.Build.Refers.{RefersTo, Unread, Lists, fk_edges-Lists}
use hepta_dbcli.Load.Build.{
  TableFile, fk_edges, by_table, without, entries_of, sorted_names, build_plan,
}

module _ (le : Text → Text → Bool) where
  one_of-insert_sorted :
      (t a : Text) (ys : List Text)
      → one_of t (insert_sorted le a ys) ≡ (text_eq a t || one_of t ys)
  unfolding insert_sorted one_of
  one_of-insert_sorted t a [] = refl
  one_of-insert_sorted t a (b ∷ ys) = branch (le a b) (one_of-insert_sorted t a ys)
    where
      branch :
          (k : Bool)
          → one_of t (insert_sorted le a ys) ≡ (text_eq a t || one_of t ys)
          → one_of t (if k then a ∷ b ∷ ys else b ∷ insert_sorted le a ys)
            ≡ (text_eq a t || (text_eq b t || one_of t ys))
      branch true ih = refl
      branch false ih =
          ap (λ (r : Bool). text_eq b t || r) ih
          ∙ or_swapped (text_eq b t) (text_eq a t) (one_of t ys)

  one_of-sort : (t : Text) (xs : List Text) → one_of t (sort le xs) ≡ one_of t xs
  unfolding sort one_of
  one_of-sort t [] = refl
  one_of-sort t (a ∷ xs) =
      one_of-insert_sorted t a (sort le xs) ∙ ap (λ (r : Bool). text_eq a t || r) (one_of-sort t xs)

  insert_sorted-Distinct :
      (a : Text) (ys : List Text)
      → one_of a ys ≡ false
      → Distinct ys
      → Distinct (insert_sorted le a ys)
  unfolding insert_sorted one_of
  insert_sorted-Distinct a [] new d = (refl, tt)
  insert_sorted-Distinct a (b ∷ ys) new d =
      let parts = or_false (text_eq b a) (one_of a ys) new in
      branch (le a b) (insert_sorted-Distinct a ys parts.1 d.1)
        (one_of-insert_sorted b a ys ∙ rw (text_eq_swapped a b, parts.0) d.0)
    where
      branch :
          (k : Bool)
          → Distinct (insert_sorted le a ys)
          → one_of b (insert_sorted le a ys) ≡ false
          → Distinct (if k then a ∷ b ∷ ys else b ∷ insert_sorted le a ys)
      branch true ih apart = (new, d)
      branch false ih apart = (apart, ih)

  sort-Distinct : (xs : List Text) → Distinct xs → Distinct (sort le xs)
  unfolding sort
  sort-Distinct [] d = tt
  sort-Distinct (a ∷ xs) d =
      insert_sorted-Distinct a (sort le xs) (one_of-sort a xs ∙ d.0) (sort-Distinct xs d.1)

-- Every table that has not been taken has its file.
abbrev Holds : NameMap TableFile → List Text → List Text → Type 0
Holds m nodes taken =
    (t : Text)
    → one_of t nodes ≡ true
    → one_of t taken ≡ false
    → (file : TableFile) × (m t ≡ some file) × (file.table ≡ t)

Holds-without :
    (m : NameMap TableFile) (nodes taken : List Text) (x : Text)
    → Holds m nodes taken
    → Holds (without x m) nodes (x ∷ taken)
unfolding one_of
Holds-without m nodes taken x h t k new =
    let parts = or_false (text_eq x t) (one_of t taken) new in
    let file = h t k parts.1 in (file.0, rw parts.0 file.1, file.2)

by_table-none :
    (files : List TableFile) (t : Text)
    → one_of t (map (λ (f : TableFile). f.table) files) ≡ false
    → by_table files t ≡ none
unfolding one_of
by_table-none [] t h = refl
by_table-none (f ∷ fs) t h =
    let parts = or_false (text_eq f.table t) (one_of t (map (λ (g : TableFile). g.table) fs)) h in
    rw (by_table-none fs t parts.1, parts.0) refl

by_table-Holds :
    (files : List TableFile) → Holds (by_table files) (map (λ (f : TableFile). f.table) files) []
unfolding one_of
by_table-Holds [] t k new = cc
by_table-Holds (f ∷ fs) t k new =
    elim (Bool-cases (one_of t (map (λ (g : TableFile). g.table) fs))) [
      | inl e ↦ let later = by_table-Holds fs t e new in (later.0, rw (later.1) refl, later.2)
      | inr e ↦
          let same = (text_eq_iff f.table t).0 (first (text_eq f.table t) _ e k) in
          (f, rw (by_table-none fs t e, (text_eq_iff f.table t).1 same) refl, same)
    ]
  where
    first : (a b : Bool) → b ≡ false → (a || b) ≡ true → a ≡ true
    first true b h k = refl
    first false b h k = cc

abbrev pub tables_of : List PlanEntry → List Text
tables_of = map (λ (e : PlanEntry). e.table)

module _ (schema : Option Text) (listed : NameMap (Option Text)) (nodes : List Text)
    (edges : Edges) where
  tables_of-entries_of :
      (m : NameMap TableFile) (taken order : List Text)
      → Holds m nodes taken
      → LoadsInOrder nodes edges taken order
      → tables_of (entries_of schema listed m order) ≡ order
  unfolding entries_of
  tables_of-entries_of m taken [] h o = refl
  tables_of-entries_of m taken (x ∷ xs) h o =
      let file = h x o.0 o.1 in
      rw
        (
          entries_of,
          file.1,
          file.2,
          tables_of-entries_of (without x m) (x ∷ taken) xs (Holds-without m nodes taken x h) o.3,
        )
        refl

abbrev Follows : List Text → Edges → Outcome LoadPlan → Type 0
Follows nodes edges (ok plan) = Answers nodes edges (ok (tables_of plan.entries))
Follows nodes edges (err m) = stable_topo_order nodes edges ≡ err m
Follows nodes edges panic = ⊥
Follows nodes edges out_of_fuel = ⊥

module _ (files : List TableFile) (schema : Option Text) (fk_columns : List Text)
    (fk_rows : List Row) (listed : NameMap (Option Text)) where
  abbrev nodes : List Text
  nodes = sorted_names files

  abbrev planned : Outcome (List Text) → Outcome LoadPlan
  planned o =
      o >>= λ order. ok (record { entries = entries_of schema listed (by_table files) order })

  sorted-Holds : Holds (by_table files) nodes []
  sorted-Holds t k new =
      by_table-Holds files t
        (sym (one_of-sort text_le t (map (λ (f : TableFile). f.table) files)) ∙ k) new

  planned-Follows :
      (edges : Edges) (o : Outcome (List Text))
      → stable_topo_order nodes edges ≡ o
      → Answers nodes edges o
      → Follows nodes edges (planned o)
  planned-Follows edges (ok order) e a =
      rw (tables_of-entries_of schema listed nodes edges (by_table files) [] order sorted-Holds a.0)
        a
  planned-Follows edges (err m) e a = e
  planned-Follows edges panic e a = a
  planned-Follows edges out_of_fuel e a = a

  build_plan-Follows :
      (edges : Edges)
      → Distinct (map (λ (f : TableFile). f.table) files)
      → fk_edges fk_columns fk_rows ≡ ok edges
      → Follows nodes edges (build_plan files schema fk_columns fk_rows listed)
  unfolding build_plan
  build_plan-Follows edges d e = rw e (
      planned-Follows edges (stable_topo_order nodes edges) refl (
        stable_topo_order-Answers nodes edges
          (sort-Distinct text_le (map (λ (f : TableFile). f.table) files) d)))

  build_plan-Unread :
      (m : Text)
      → fk_edges fk_columns fk_rows ≡ err m
      → build_plan files schema fk_columns fk_rows listed ≡ err m
  unfolding build_plan
  build_plan-Unread m e = rw (build_plan, e) refl

  -- The foreign keys that the database lists are the edges.
  abbrev pub AreEdges : Edges → Type 0
  AreEdges edges = (p c : Text) → Edge p c edges ↔ RefersTo fk_columns fk_rows p c

  -- What a plan, or an error, says of the tables and the foreign keys.
  abbrev pub Plans : Outcome LoadPlan → Type 0
  Plans (ok plan) =
      (edges : Edges) × AreEdges edges × Answers nodes edges (ok (tables_of plan.entries))
  Plans (err m) =
      Unread fk_columns fk_rows ⊎ ((edges : Edges) × AreEdges edges × Answers nodes edges (err m))
  Plans panic = ⊥
  Plans out_of_fuel = ⊥

  -- For files of different tables the building of a plan ends without a panic. A plan has an entry for the
  -- table of every file, each behind all the tables to which the database lists a foreign key from its own.
  -- With an error a column of the listing is missing, or there are tables of files that can be loaded in
  -- their order, and one beside them, and every one beside them refers to a table that is not among them.
  pub build_plan-Plans :
      Distinct (map (λ (f : TableFile). f.table) files)
      → Plans (build_plan files schema fk_columns fk_rows listed)
  unfolding Lists
  build_plan-Plans d =
      listing (fk_edges fk_columns fk_rows) refl (fk_edges-Lists fk_columns fk_rows)
    where
      ends :
          (edges : Edges) (o : Outcome LoadPlan) → AreEdges edges → Follows nodes edges o → Plans o
      ends edges (ok plan) k h = (edges, k, h)
      ends edges (err m) k h = inr (
        edges,
        k,
        subst (Answers nodes edges) h (
            stable_topo_order-Answers nodes edges
              (sort-Distinct text_le (map (λ (f : TableFile). f.table) files) d)),
      )
      ends edges panic k h = h
      ends edges out_of_fuel k h = h

      listing :
          (o : Outcome Edges)
          → fk_edges fk_columns fk_rows ≡ o
          → Lists fk_columns fk_rows o
          → Plans (build_plan files schema fk_columns fk_rows listed)
      listing (ok edges) e l =
          ends edges (build_plan files schema fk_columns fk_rows listed) l
            (build_plan-Follows edges d e)
      listing (err m) e u = subst Plans (sym (build_plan-Unread m e)) (inl u)
      listing panic e l = absurd l
      listing out_of_fuel e l = absurd l
