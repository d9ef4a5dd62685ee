-- ===== src/Naive/Keyless.antt =====
-- The keyless merge counted by the contents of the rows.
use hepta_dbcli.Prelude.{
  ℕ, ◌-◌, Bool, true, false, ◌&&◌, List, [], ◌∷◌, Option, none, some, ◌≡◌, refl, arith,
}
use hepta_dbcli.Prelude.Assoc.{IsEqTest-IsEquivTest, IsEquivTest}
use hepta_dbcli.Prelude.Sort.{count_if}
use hepta_dbcli.Text.{text_eq}
use hepta_dbcli.Text.Laws.{text_eq_iff}
use hepta_dbcli.Decimals.{DecimalOps, IsDecimal}
use hepta_dbcli.Report.{Row, DiffRow, missing_left, missing_right, modified}
use hepta_dbcli.Naive.{
  Fingerprint, nothing, num, text, fingerprint_eq, fingerprint_row, fingerprints_eq, combine,
  left_only, right_only, keyless_merge,
}
use hepta_dbcli.Naive.Balance.{merge-unpaired}

texts : IsEquivTest text_eq
texts =
    IsEqTest-IsEquivTest text_eq
      (record { eq_refl = λ s. (text_eq_iff s s).1 refl; eq_path = λ s t e. (text_eq_iff s t).0 e })

module _ (ops : DecimalOps) where
  -- How many of the rows have the fingerprints `f`.
  abbrev pub rows_like : List Bool → List (Fingerprint ops) → List Row → ℕ
  rows_like flags f rows =
      count_if (λ row. fingerprints_eq ops (fingerprint_row ops row flags) f) rows

  abbrev row_like : List Bool → List (Fingerprint ops) → Option Row → Bool
  row_like flags f none = false
  row_like flags f (some row) = fingerprints_eq ops (fingerprint_row ops row flags) f

  -- A row of the report that says that a side misses a row like `f`.
  abbrev pub lost_on_left : List Bool → List (Fingerprint ops) → DiffRow → Bool
  lost_on_left flags f row = elim row.status [
    | missing_left ↦ row_like flags f row.right
    | missing_right ↦ false
    | modified ↦ false
  ]

  abbrev pub lost_on_right : List Bool → List (Fingerprint ops) → DiffRow → Bool
  lost_on_right flags f row = elim row.status [
    | missing_left ↦ false
    | missing_right ↦ row_like flags f row.left
    | modified ↦ false
  ]

module _ (ops : DecimalOps) (numbers : IsDecimal ops) where
  fingerprint_eq-IsEquivTest : IsEquivTest (fingerprint_eq ops)
  unfolding fingerprint_eq
  fingerprint_eq-IsEquivTest = record { self = self; swapped = swapped; alike = alike }
    where
      self : (a : Fingerprint ops) → fingerprint_eq ops a a ≡ true
      self nothing = refl
      self (num a) = numbers.self a
      self (text s) = texts.self s

      swapped : (a b : Fingerprint ops) → fingerprint_eq ops a b ≡ fingerprint_eq ops b a
      swapped nothing nothing = refl
      swapped nothing (num b) = refl
      swapped nothing (text b) = refl
      swapped (num a) nothing = refl
      swapped (num a) (num b) = numbers.swapped a b
      swapped (num a) (text b) = refl
      swapped (text a) nothing = refl
      swapped (text a) (num b) = refl
      swapped (text a) (text b) = texts.swapped a b

      alike :
          (a b c : Fingerprint ops)
          → fingerprint_eq ops a b ≡ true
          → fingerprint_eq ops a c ≡ fingerprint_eq ops b c
      alike nothing nothing c e = refl
      alike nothing (num b) c e = absurd (ground arith)
      alike nothing (text b) c e = absurd (ground arith)
      alike (num a) nothing c e = absurd (ground arith)
      alike (num a) (num b) nothing e = refl
      alike (num a) (num b) (num c) e = numbers.alike a b c e
      alike (num a) (num b) (text c) e = refl
      alike (num a) (text b) c e = absurd (ground arith)
      alike (text a) nothing c e = absurd (ground arith)
      alike (text a) (num b) c e = absurd (ground arith)
      alike (text a) (text b) nothing e = refl
      alike (text a) (text b) (num c) e = refl
      alike (text a) (text b) (text c) e = texts.alike a b c e

  fingerprints_eq-IsEquivTest : IsEquivTest (fingerprints_eq ops)
  unfolding fingerprints_eq
  fingerprints_eq-IsEquivTest = record { self = self; swapped = swapped; alike = alike }
    where
      cells : IsEquivTest (fingerprint_eq ops)
      cells = fingerprint_eq-IsEquivTest

      self : (a : List (Fingerprint ops)) → fingerprints_eq ops a a ≡ true
      self [] = refl
      self (a ∷ xs) = λ i. cells.self a i && self xs i

      swapped : (a b : List (Fingerprint ops)) → fingerprints_eq ops a b ≡ fingerprints_eq ops b a
      swapped [] [] = refl
      swapped [] (b ∷ ys) = refl
      swapped (a ∷ xs) [] = refl
      swapped (a ∷ xs) (b ∷ ys) = λ i. cells.swapped a b i && swapped xs ys i

      alike :
          (a b c : List (Fingerprint ops))
          → fingerprints_eq ops a b ≡ true
          → fingerprints_eq ops a c ≡ fingerprints_eq ops b c
      alike [] [] c e = refl
      alike [] (b ∷ ys) c e = absurd (ground arith)
      alike (a ∷ xs) [] c e = absurd (ground arith)
      alike (a ∷ xs) (b ∷ ys) [] e = refl
      alike (a ∷ xs) (b ∷ ys) (c ∷ zs) e =
          λ i. cells.alike a b c (ground arith) i && alike xs ys zs (ground arith) i

  -- Of every content, the report shows as missing on a side what the other side has more of it.
  pub keyless_merge-rows_like :
      (lrows rrows : List Row) (lnum rnum : List Bool) (f : List (Fingerprint ops))
      → let flags = combine lnum rnum in
        let out = keyless_merge ops lrows rrows lnum rnum in
        (count_if (lost_on_left ops flags f) out
          ≡ rows_like ops flags f rrows - rows_like ops flags f lrows)
        × (count_if (lost_on_right ops flags f) out
            ≡ rows_like ops flags f lrows - rows_like ops flags f rrows)
  unfolding keyless_merge
  keyless_merge-rows_like lrows rrows lnum rnum f =
      let flags = combine lnum rnum in
      merge-unpaired (fingerprints_eq ops) fingerprints_eq-IsEquivTest
        (λ row. fingerprint_row ops row flags) (λ i row. []) (right_only ops flags) f
        (lost_on_left ops flags f) (lost_on_right ops flags f) (left_only ops flags) (λ r. refl)
        (λ i r. refl) (λ l. refl) (λ r. refl) (λ i r. refl) (λ l. refl) lrows rrows
