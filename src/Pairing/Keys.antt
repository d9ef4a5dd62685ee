-- ===== src/Pairing/Keys.antt =====
-- The key that two tables share: `pair_plans` of dbcli/src/delta_diff/pairing.rs.
use hepta_dbcli.Prelude.{
  ℕ, ◌≤◌, ◌==◌, Bool, true, false, not, ◌&&◌, List, [], ◌∷◌, map, Option, none, some, get_or,
  length, ◌≡◌, refl, ap, inl, inr, ◌⊎◌, ==_iff, Bool-cases,
}
use mathlib.Core.Path.{subst}
use hepta_dbcli.Text.{Text, eq_ignore_ascii_case}
use hepta_dbcli.Pairing.{TablePlan, is_empty, all_some, pair_names, keys_align, pair_plans}
use hepta_dbcli.Pairing.Once.{times}
use hepta_dbcli.Pairing.Names.{Matches, pair_names-Matches}

-- Each left name is that of the right column at the index, up to the case of ASCII letters.
abbrev pub Paired : List Text → List Text → List ℕ → Type 0
unfolding eq_ignore_ascii_case
Paired right [] [] = Unit {0}
Paired right (l ∷ ls) (i ∷ is) =
    (eq_ignore_ascii_case (get_or right i []) l ≡ true) × Paired right ls is
Paired right _ _ = ⊥

-- As many columns, which are paired one to one.
abbrev pub Corresponds : List Text → List Text → Type 0
unfolding Paired
Corresponds left right =
    (length left ≡ length right)
    × (is : List ℕ) × Paired right left is
    × ((r : ℕ) → times r (map some is) ≤ 1)

-- There is no common key, or it is that of the left table, which corresponds to that of the right one.
abbrev pub Shared : TablePlan → TablePlan → List Text → Type 0
unfolding Corresponds
Shared l r keys = (keys ≡ []) ⊎ ((keys ≡ l.key_columns) × Corresponds l.key_columns r.key_columns)

indices_of : (os : List (Option ℕ)) → all_some os ≡ true → (is : List ℕ) × (os ≡ map some is)
indices_of [] h = ([], refl)
indices_of (none ∷ os) h = cc h
indices_of (some i ∷ os) h =
    let r = indices_of os h in (i ∷ r.0, ap (λ (js : List (Option ℕ)). some i ∷ js) r.1)

Matches-Paired :
    (right left : List Text) (is : List ℕ) → Matches right left (map some is) → Paired right left is
unfolding Matches Paired
Matches-Paired right [] [] m = tt
Matches-Paired right [] (i ∷ is) m = absurd m
Matches-Paired right (l ∷ ls) [] m = absurd m
Matches-Paired right (l ∷ ls) (i ∷ is) m = (m.0, Matches-Paired right ls is m.1)

last_two : (a b c d e : Bool) → (a && b && c && d && e) ≡ true → (c ≡ true) × (e ≡ true)
last_two true true true true e h = (refl, h)
last_two true true true false e h = cc
last_two true true false d e h = cc
last_two true false c d e h = cc
last_two false b c d e h = cc

keys_align-Corresponds :
    (l r : TablePlan) → keys_align l r ≡ true → Corresponds l.key_columns r.key_columns
unfolding keys_align Corresponds
keys_align-Corresponds l r h =
    let parts = pair_names l.key_columns r.key_columns in
    let t =
      last_two (not (is_empty l.key_columns)) (not (is_empty r.key_columns))
        (length l.key_columns == length r.key_columns) (is_empty parts.ambiguous)
        (all_some parts.right_of_left) h in
    let is = indices_of parts.right_of_left t.1 in
    (
      (==_iff (length l.key_columns) (length r.key_columns)).0 t.0,
      is.0,
      Matches-Paired r.key_columns l.key_columns is.0 (
          subst (Matches r.key_columns l.key_columns) is.1
            (pair_names-Matches l.key_columns r.key_columns 0).0),
      λ n. subst (λ os. times n os ≤ 1) is.1 (pair_names-Matches l.key_columns r.key_columns n).1,
    )

pub pair_plans-Shared : (l r : TablePlan) → Shared l r (pair_plans l r).key_columns
unfolding pair_plans Shared
pair_plans-Shared l r = elim (Bool-cases (keys_align l r)) [
  | inl e ↦ rw e (inr (refl, keys_align-Corresponds l r e))
  | inr e ↦ rw e (inl refl)
]
