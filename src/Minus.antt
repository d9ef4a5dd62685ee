-- ===== src/Minus.antt =====
-- The rows of a set difference that a server computed, classified: `classify_minus_rows` of
-- dbcli/src/delta_diff/minus_diff/sql.rs.
pub mod Answer
pub mod Accounts
mod Examples
use hepta_dbcli.Prelude.{
  ℕ, zero, suc, ◌+◌, ltb, ◌==◌, Bool, true, false, not, ◌&&◌, ◌||◌, List, [], ◌∷◌, ◌++◌, Option,
  none, some, take, drop, length, if◌then◌else◌,
}
use hepta_dbcli.Prelude.Assoc.{find, upsert}
use hepta_dbcli.Text.{Text, codes, text_eq}
use hepta_dbcli.Report.{
  Value, null, string, Row, DiffKey, single, composite, DiffRow, DiffStatus, missing_left,
  missing_right, modified, key_text, digits,
}

-- `Result<_, DbError>`: every error here is `DbError::query` of a text.
pub data Classified {ℓ} (A : Type ℓ) : Type ℓ where
  ok : A → Classified A
  err : Text → Classified A

pub record Group : Type 0 where
  pub key : DiffKey
  pub left : Option Row
  pub right : Option Row

-- `groups` and `order` in one: the groups in the order in which their keys came.
abbrev pub Groups : Type 0
Groups = List (Text × Group)

abbrev pub minus_key : Row → DiffKey
minus_key (v ∷ []) = single v
minus_key vs = composite vs

abbrev wrong_length : Text → ℕ → ℕ → Text → Text
unfolding digits
wrong_length head cells expected middle = head ++ digits cells ++ middle ++ digits expected

-- The side of a row: `some true` is "L", `some false` is "R".
abbrev pub side_of : Row → Option Bool
unfolding text_eq
side_of (string s ∷ vs) =
    if text_eq s (codes "L") then some true else if text_eq s (codes "R") then some false else none
side_of _ = none

abbrev pub new_group : DiffKey → Option Group → Group
new_group k none = record { key = k; left = none; right = none }
new_group k (some g) = g

abbrev pub is_taken : Option Row → Bool
is_taken none = false
is_taken (some r) = true

-- Whether the slot of the side holds a row.
abbrev pub taken : Bool → Group → Bool
taken is_left g = is_taken (if is_left then g.left else g.right)

abbrev pub put_side : Bool → Row → Group → Group
put_side true payload g = record g { left = some payload }
put_side false payload g = record g { right = some payload }

-- A row whose side is known, into its group.
abbrev pub put_row : Groups → Bool → DiffKey → Row → Text → Classified Groups
unfolding find upsert
put_row groups is_left raw_key payload norm_key =
    let group = new_group raw_key (find text_eq groups norm_key) in
    if taken is_left group
    then err (codes "minusdiff: normalized key is not unique")
    else ok (upsert text_eq (λ o. put_side is_left payload (new_group raw_key o)) norm_key groups)

module _ (key_len value_len : ℕ) where
  abbrev pub expected : ℕ
  expected = 1 + key_len + value_len + key_len

  abbrev pub on_side : Groups → Row → Option Bool → Classified Groups
  unfolding put_row key_text
  on_side groups row none = err (codes "minusdiff: result side must be 'L' or 'R'")
  on_side groups row (some is_left) =
      put_row groups is_left (minus_key (take key_len (drop 1 row)))
        (take (key_len + value_len) (drop 1 row))
        (key_text (composite (drop (1 + key_len + value_len) row)))

  abbrev pub add_row : Groups → Row → Classified Groups
  unfolding on_side side_of wrong_length
  add_row groups row =
      if ltb (length row) expected
      then err (
          wrong_length (codes "minusdiff: projection too short: result row has ") (length row)
            expected (codes " cells, expected "))
      else if not (length row == expected)
      then err (
          wrong_length (codes "minusdiff: result row has ") (length row) expected
            (codes " cells, expected "))
      else on_side groups row (side_of row)

  abbrev pub and_then {ℓ κ} :
      {A : Type ℓ} {B : Type κ} → Classified A → (A → Classified B) → Classified B
  and_then (ok a) f = f a
  and_then (err e) f = err e

  unfoldable pub add_rows : Groups → List Row → Classified Groups
  unfolding add_row
  add_rows groups [] = ok groups
  add_rows groups (row ∷ rows) = and_then (add_row groups row) (λ next. add_rows next rows)

  abbrev pub group_row : DiffKey → Option Row → Option Row → List DiffRow
  group_row k (some l) none =
      record { key = k; left = some l; right = none; status = missing_right; confirmed = true } ∷ []
  group_row k none (some r) =
      record { key = k; left = none; right = some r; status = missing_left; confirmed = true } ∷ []
  group_row k (some l) (some r) =
      record { key = k; left = some l; right = some r; status = modified; confirmed = true } ∷ []
  group_row k none none = []

  abbrev pub rows_of : Groups → List DiffRow
  rows_of [] = []
  rows_of ((k, g) ∷ groups) = group_row g.key g.left g.right ++ rows_of groups

  unfoldable pub classify_minus_rows : List Row → Classified (List DiffRow)
  unfolding add_rows
  classify_minus_rows rows = and_then (add_rows [] rows) (λ groups. ok (rows_of groups))
