-- ===== src/Iblt/Classify.antt =====
-- The entries that were peeled, classified into rows of the report: `classify_keyless` of
-- dbcli/src/delta_diff/iblt_diff.rs.
pub mod Repeats
mod AnyOrder
pub mod Keyless
use hepta_dbcli.Prelude.{
  ℕ, suc, ◌+◌, ltb, leb, ◌==◌, Bool, true, false, List, [], ◌∷◌, ◌++◌, map, Option, none, some,
  if◌then◌else◌,
}
use hepta_dbcli.Prelude.Int.{pos}
use hepta_dbcli.Prelude.Sort.{sort}
use hepta_dbcli.Prelude.Assoc.{find, upsert}
use hepta_dbcli.Report.{
  DiffRow, DiffStatus, missing_left, missing_right, integer, single, key_text, text_le,
}
use hepta_dbcli.Iblt.{Entry}

abbrev pub or_zero : Option ℕ → ℕ
or_zero none = 0
or_zero (some n) = n

-- `*seen.entry(key).or_default() += 1`
abbrev pub see : ℕ → List (ℕ × ℕ) → List (ℕ × ℕ)
unfolding upsert
see k seen = upsert ◌==◌ (λ o. suc (or_zero o)) k seen

-- The loop over `seen`: it returns at the first key that has come before.
unfoldable pub has_repeat : List (ℕ × ℕ) → List Entry → Bool
unfolding find upsert
has_repeat seen [] = false
has_repeat seen (e ∷ es) =
    let rest = has_repeat (see e.key seen) es in
    if ltb 1 (suc (or_zero (find ◌==◌ seen e.key))) then true else rest

abbrev pub no_sides : Bool × Bool
no_sides = (false, false)

abbrev pub or_no_sides : Option (Bool × Bool) → Bool × Bool
or_no_sides none = no_sides
or_no_sides (some s) = s

-- `slot.0 = true` or `slot.1 = true`
abbrev pub mark : Bool → Bool × Bool → Bool × Bool
mark true (l, r) = (true, r)
mark false (l, r) = (l, true)

unfoldable pub sides_by_key : List (ℕ × (Bool × Bool)) → List Entry → List (ℕ × (Bool × Bool))
unfolding upsert
sides_by_key m [] = m
sides_by_key m (e ∷ es) =
    sides_by_key (upsert ◌==◌ (λ o. mark e.from_left (or_no_sides o)) e.key m) es

-- A row that only names its key.
abbrev pub key_row : ℕ → DiffStatus → DiffRow
key_row k status = record {
  key = single (integer (pos k));
  left = none;
  right = none;
  status = status;
  confirmed = true;
}

-- `missing_left`, `missing_right` and `rows`
abbrev pub Counted : Type 0
Counted = ℕ × ℕ × List DiffRow

abbrev pub status_of : Bool × Bool → Option DiffStatus
status_of (true, false) = some missing_right
status_of (false, true) = some missing_left
status_of _ = none

abbrev pub bump : Bool → ℕ → ℕ
bump t n = if t then suc n else n

-- One turn of the loop over `keys`, on what the later turns add.
abbrev pub count_key : ℕ → Bool × Bool → Option DiffStatus → Counted → Counted
count_key k sides none counted = counted
count_key k (has_left, has_right) (some status) (ml, mr, rows) =
    (bump has_right ml, bump has_left mr, key_row k status ∷ rows)

unfoldable pub count_keys : List (ℕ × (Bool × Bool)) → List ℕ → Counted
unfolding find
count_keys m [] = (0, 0, [])
count_keys m (k ∷ ks) =
    let sides = or_no_sides (find ◌==◌ m k) in count_key k sides (status_of sides) (count_keys m ks)

abbrev pub row_le : DiffRow → DiffRow → Bool
row_le a b = text_le (key_text a.key) (key_text b.key)

abbrev pub sort_rows : Counted → Counted
sort_rows (ml, mr, rows) = (ml, mr, sort row_le rows)

-- `none` is the source's `Err(())`.
unfoldable pub classify_keyless : List Entry → Option Counted
unfolding has_repeat sides_by_key count_keys sort
classify_keyless es =
    let m = sides_by_key [] es in
    if has_repeat [] es
    then none
    else some (sort_rows (count_keys m (sort leb (map (λ (k, s). k) m))))
