-- ===== src/Naive.antt =====
-- The client-side merge of all rows of both sides, dbcli/src/delta_diff/naive_diff.rs.
pub mod Pairing
pub mod Counts
pub mod Balance
pub mod Keyless
mod Examples
use hepta_dbcli.Prelude.{
  ℕ, zero, suc, ◌==◌, Bool, true, false, not, ◌&&◌, List, [], ◌∷◌, ◌++◌, map, Option, none, some,
  get_or, set, take, length, replicate, if◌then◌else◌,
}
use hepta_dbcli.Prelude.Assoc.{find, upsert}
use hepta_dbcli.Decimals.{DecimalOps}
use hepta_dbcli.Text.{Text, codes, text_eq, trim}
use hepta_dbcli.Report.{
  Value, null, string, Row, DiffRow, DiffStatus, missing_left, missing_right, modified, single,
  value_text, join,
}

-- `zip` and `&&` of the numeric flags of the two sides
abbrev pub combine : List Bool → List Bool → List Bool
combine [] rs = []
combine (l ∷ ls) [] = []
combine (l ∷ ls) (r ∷ rs) = (l && r) ∷ combine ls rs

-- `pop`
abbrev pub cons_popped {ℓ} : {A : Type ℓ} → A → Option (List A × A) → Option (List A × A)
cons_popped x none = some ([], x)
cons_popped x (some (ys, y)) = some (x ∷ ys, y)

abbrev pub pop_last {ℓ} : {A : Type ℓ} → List A → Option (List A × A)
pop_last [] = none
pop_last (x ∷ xs) = cons_popped x (pop_last xs)

abbrev pub or_nil : Option (List ℕ) → List ℕ
or_nil none = []
or_nil (some is) = is

module _ (ops : DecimalOps) where
  pub data Fingerprint : Type 0 where
    nothing : Fingerprint
    num : ops.Number → Fingerprint
    text : Text → Fingerprint

  abbrev pub fingerprint_eq : Fingerprint → Fingerprint → Bool
  unfolding text_eq
  fingerprint_eq nothing nothing = true
  fingerprint_eq (num a) (num b) = ops.same a b
  fingerprint_eq (text s) (text t) = text_eq s t
  fingerprint_eq _ _ = false

  abbrev number_or_text : Text → Option ops.Number → Fingerprint
  number_or_text t none = text t
  number_or_text t (some d) = num d

  abbrev pub fingerprint_cell : Value → Bool → Fingerprint
  unfolding value_text
  fingerprint_cell null numeric = nothing
  fingerprint_cell v true = number_or_text (value_text v) (ops.parse (trim (value_text v)))
  fingerprint_cell v false = text (value_text v)

  abbrev pub fingerprint_row : Row → List Bool → List Fingerprint
  unfolding fingerprint_cell
  fingerprint_row [] flags = []
  fingerprint_row (v ∷ vs) [] = fingerprint_cell v false ∷ fingerprint_row vs []
  fingerprint_row (v ∷ vs) (f ∷ fs) = fingerprint_cell v f ∷ fingerprint_row vs fs

  abbrev pub fingerprints_eq : List Fingerprint → List Fingerprint → Bool
  unfolding fingerprint_eq
  fingerprints_eq [] [] = true
  fingerprints_eq (a ∷ as') (b ∷ bs) = fingerprint_eq a b && fingerprints_eq as' bs
  fingerprints_eq _ _ = false

-- The pairing of rows by a key: both merges of the source keep the indices of the left rows of a key
-- in a map, take the last of them for a right row of the key, and mark it as consumed.
module _ {K : Type 0} (eq : K → K → Bool) where
  -- `left_map.entry(key).or_default().push(i)` for each row
  unfoldable pub index_rows : ℕ → List K → List (K × List ℕ) → List (K × List ℕ)
  unfolding upsert
  index_rows i [] m = m
  index_rows i (k ∷ ks) m = index_rows (suc i) ks (upsert eq (λ o. or_nil o ++ i ∷ []) k m)

  -- `left_map.get_mut(key).and_then(|indices| indices.pop())`
  abbrev pub popped : K → List (K × List ℕ) → Option (List ℕ × ℕ) → List (K × List ℕ) × Option ℕ
  unfolding upsert
  popped k m none = (m, none)
  popped k m (some (rest, i)) = (upsert eq (λ o. rest) k m, some i)

  abbrev pub pop_at : K → List (K × List ℕ) → List (K × List ℕ) × Option ℕ
  unfolding find popped
  pop_at k m = popped k m (pop_last (or_nil (find eq m k)))

  -- What a merge does with a row: `R` is a row and `O` a row of the report.
  module _ {R O : Type 0} (key : R → K) (on_pair : ℕ → R → List O) (on_none : R → O) where
    abbrev pub Merged : Type 0
    Merged = List O × List (K × List ℕ) × List Bool

    abbrev pub with_rows : List O → Merged → Merged
    with_rows new (rows, m, consumed) = (new ++ rows, m, consumed)

    abbrev pub taken :
        R
        → List Bool
        → (List (K × List ℕ) → List Bool → Merged)
        → List (K × List ℕ) × Option ℕ
        → Merged
    taken r consumed rest (m, none) = with_rows (on_none r ∷ []) (rest m consumed)
    taken r consumed rest (m, some i) = with_rows (on_pair i r) (rest m (set consumed i true))

    -- The loop over the right rows. `consumed[li] = true` is within bounds, since the indices are
    -- those of the left rows.
    unfoldable pub merge_right : List R → List (K × List ℕ) → List Bool → Merged
    unfolding pop_at
    merge_right [] m consumed = ([], m, consumed)
    merge_right (r ∷ rs) m consumed = taken r consumed (merge_right rs) (pop_at (key r) m)

    -- The loop over the left rows.
    unfoldable pub unconsumed : (R → O) → List R → List Bool → List O
    unconsumed make [] consumed = []
    unconsumed make (l ∷ ls) [] = []
    unconsumed make (l ∷ ls) (c ∷ cs) =
        let rest = unconsumed make ls cs in if c then rest else make l ∷ rest

    abbrev pub finish_left : (R → O) → List R → Merged → List O
    unfolding unconsumed
    finish_left make ls (rows, m, consumed) = rows ++ unconsumed make ls consumed

    unfoldable pub merge : (R → O) → List R → List R → List O
    unfolding index_rows merge_right finish_left
    merge make ls rs =
        finish_left make ls
          (merge_right rs (index_rows 0 (map key ls) []) (replicate (length ls) false))

module _ (ops : DecimalOps) where
  abbrev shown : Fingerprint ops → Text
  shown nothing = codes "NULL"
  shown (num d) = ops.show d
  shown (text t) = t

  abbrev pub keyless_key : Row → List Bool → Value
  unfolding fingerprint_row
  keyless_key row flags =
      string (
        take 12 (join (codes "#") (map shown (fingerprint_row ops row flags)))
        ++ codes "…(keyless)")

  abbrev pub left_only : List Bool → Row → DiffRow
  left_only flags row = record {
    key = single (keyless_key row flags);
    left = some row;
    right = none;
    status = missing_right;
    confirmed = true;
  }

  abbrev pub right_only : List Bool → Row → DiffRow
  right_only flags row = record {
    key = single (keyless_key row flags);
    left = none;
    right = some row;
    status = missing_left;
    confirmed = true;
  }

  unfoldable pub keyless_merge : List Row → List Row → List Bool → List Bool → List DiffRow
  unfolding merge fingerprint_row
  keyless_merge lrows rrows lnum rnum =
      let combined = combine lnum rnum in
      merge (fingerprints_eq ops) (λ row. fingerprint_row ops row combined) (λ i row. [])
        (right_only combined) (left_only combined) lrows rrows
