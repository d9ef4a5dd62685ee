-- ===== src/Pairing.antt =====
-- Columns and keys of two tables paired by their names, dbcli/src/delta_diff/pairing.rs, and the
-- part of `TablePlan` of metadata.rs that pairing and routing read.
mod Once
pub mod Names
pub mod Keys
mod Examples
use hepta_dbcli.Prelude.{
  ℕ, suc, ◌==◌, Bool, true, false, not, ◌&&◌, List, [], ◌∷◌, ◌++◌, map, Option, none, some, set,
  get_or, length, replicate, if◌then◌else◌,
}
use hepta_dbcli.Text.{Text, text_eq, eq_ignore_ascii_case}

pub record ColumnSpec : Type 0 where
  pub name : Text
  pub data_type : Text

pub record TablePlan : Type 0 where
  pub key_columns : List Text
  pub compare_columns : List Text
  pub norm_specs : List ColumnSpec
  pub key_specs : List ColumnSpec
  pub key_unique : Bool

abbrev is_some {ℓ} : {A : Type ℓ} → Option A → Bool
is_some none = false
is_some (some a) = true

abbrev pub is_empty {ℓ} : {A : Type ℓ} → List A → Bool
is_empty [] = true
is_empty (x ∷ xs) = false

-- `or_else`
abbrev pub or_else {ℓ} : {A : Type ℓ} → Option A → Option A → Option A
or_else none o = o
or_else (some a) o = some a

module _ {ℓ} {A : Type ℓ} where
  -- `iter().find(p)`
  abbrev pub find_first : (A → Bool) → List A → Option A
  find_first p [] = none
  find_first p (x ∷ xs) = if p x then some x else find_first p xs

  -- `iter().filter(p)`
  abbrev pub keep_if : (A → Bool) → List A → List A
  keep_if p [] = []
  keep_if p (x ∷ xs) = let rest = keep_if p xs in if p x then x ∷ rest else rest

  -- `(next(), next())` of which the second is missing
  abbrev pub only_one : List A → Option A
  only_one (x ∷ []) = some x
  only_one _ = none

  -- An exact match, or else the only match up to the case of ASCII letters.
  unfoldable pub find_unique_ci : List A → Text → (A → Text) → Option A
  unfolding text_eq eq_ignore_ascii_case
  find_unique_ci items name item_name =
      or_else (find_first (λ i. text_eq (item_name i) name) items)
        (only_one (keep_if (λ i. eq_ignore_ascii_case (item_name i) name) items))

-- `TablePlan::spec_for`
unfoldable pub spec_for : TablePlan → Text → Option ColumnSpec
unfolding find_unique_ci
spec_for plan name =
    or_else (find_unique_ci plan.key_specs name (λ s. s.name))
      (find_unique_ci plan.norm_specs name (λ s. s.name))

-- The indices, from `i`, of the names that are not paired and pass the test.
unfoldable pub open_matches : (Text → Bool) → ℕ → List Text → List Bool → List ℕ
open_matches p i [] paired = []
open_matches p i (n ∷ ns) [] = []
open_matches p i (n ∷ ns) (t ∷ ts) =
    let rest = open_matches p (suc i) ns ts in if not t && p n then i ∷ rest else rest

abbrev first_of : List ℕ → Option ℕ
first_of [] = none
first_of (i ∷ is) = some i

-- What the loops keep: `right_of_left`, here of the left names so far, and `right_paired`.
abbrev pub mark_paired : Option ℕ → List Bool → List Bool
mark_paired none paired = paired
mark_paired (some i) paired = set paired i true

-- The first loop: exact matches.
unfoldable pub pair_exact : List Text → List Text → List Bool → List (Option ℕ) × List Bool
unfolding open_matches text_eq
pair_exact right [] paired = ([], paired)
pair_exact right (l ∷ ls) paired =
    let found = first_of (open_matches (λ n. text_eq n l) 0 right paired) in
    let (later, last) = pair_exact right ls (mark_paired found paired) in (found ∷ later, last)

-- The second loop, for the names that have no exact match. `ambiguous` collects the names with
-- several candidates.
abbrev pub pair_candidates : Text → List ℕ → Option ℕ × List Text
pair_candidates l [] = (none, [])
pair_candidates l (i ∷ []) = (some i, [])
pair_candidates l (i ∷ j ∷ is) = (none, l ∷ [])

abbrev pub pair_rest : Text → List Text → List Bool → Option ℕ → Option ℕ × List Text
unfolding open_matches eq_ignore_ascii_case
pair_rest l right paired (some i) = (some i, [])
pair_rest l right paired none =
    pair_candidates l (open_matches (λ n. eq_ignore_ascii_case n l) 0 right paired)

abbrev newly : Option ℕ → Option ℕ → Option ℕ
newly (some i) o = none
newly none o = o

unfoldable pub pair_folded :
    List Text → List Text → List (Option ℕ) → List Bool → List (Option ℕ) × List Bool × List Text
unfolding pair_rest
pair_folded right [] exact paired = ([], paired, [])
pair_folded right (l ∷ ls) [] paired = ([], paired, [])
pair_folded right (l ∷ ls) (e ∷ es) paired =
    let (found, unsure) = pair_rest l right paired e in
    let (later, last, ambiguous) = pair_folded right ls es (mark_paired (newly e found) paired) in
    (found ∷ later, last, unsure ++ ambiguous)

abbrev pub names_without : List Text → List Bool → List Text
names_without [] ts = []
names_without (n ∷ ns) [] = []
names_without (n ∷ ns) (t ∷ ts) = let rest = names_without ns ts in if t then rest else n ∷ rest

pub record PairingParts : Type 0 where
  pub right_of_left : List (Option ℕ)
  pub unmatched_left : List Text
  pub unmatched_right : List Text
  pub ambiguous : List Text

unfoldable pub pair_names : List Text → List Text → PairingParts
unfolding pair_exact pair_folded
pair_names left right =
    let (exact, reserved) = pair_exact right left (replicate (length right) false) in
    let (paired, taken, unsure) = pair_folded right left exact reserved in
    record {
      right_of_left = paired;
      unmatched_left = names_without left (map is_some paired);
      unmatched_right = names_without right taken;
      ambiguous = unsure;
    }

pub record Pairing : Type 0 where
  pub right_of_left : List (Option ℕ)
  pub key_columns : List Text
  pub left_key_columns : List Text
  pub right_key_columns : List Text
  pub unmatched_left : List Text
  pub unmatched_right : List Text
  pub ambiguous : List Text

abbrev pub all_some {ℓ} : {A : Type ℓ} → List (Option A) → Bool
all_some [] = true
all_some (none ∷ os) = false
all_some (some a ∷ os) = all_some os

-- The names at the indices, which are those of `names`.
abbrev names_at : List Text → List (Option ℕ) → List Text
names_at names [] = []
names_at names (none ∷ os) = names_at names os
names_at names (some i ∷ os) = get_or names i [] ∷ names_at names os

unfoldable pub keys_align : TablePlan → TablePlan → Bool
unfolding pair_names
keys_align l r =
    let keys = pair_names l.key_columns r.key_columns in
    not (is_empty l.key_columns)
    && not (is_empty r.key_columns)
    && length l.key_columns == length r.key_columns
    && is_empty keys.ambiguous
    && all_some keys.right_of_left

unfoldable pub pair_plans : TablePlan → TablePlan → Pairing
unfolding pair_names keys_align
pair_plans l r =
    let parts = pair_names l.compare_columns r.compare_columns in
    let keys = pair_names l.key_columns r.key_columns in
    let align = keys_align l r in
    record {
      right_of_left = parts.right_of_left;
      key_columns = if align then l.key_columns else [];
      left_key_columns = if align then l.key_columns else [];
      right_key_columns = if align then names_at r.key_columns keys.right_of_left else [];
      unmatched_left = parts.unmatched_left;
      unmatched_right = parts.unmatched_right;
      ambiguous = parts.ambiguous;
    }
