-- ===== src/Csv/RoundTrip.antt =====
-- A table as `export_csv` of dbcli/src/synth/export.rs writes it and `read_csv` of tabular.rs reads it.
use hepta_dbcli.Prelude.{
  ℕ, zero, suc, false, List, [], ◌∷◌, ◌++◌, map, Option, none, some, length, ◌≡◌, ◌≢◌, refl, sym,
  ap, ◌∙◌, arith, ◌==◌, ==_iff, if-cases,
}
use mathlib.Core.Path.{ap₂}
use mathlib.Core.List.{append_assoc, append-nil}
use hepta_dbcli.Text.{Text}
use hepta_dbcli.Report.{Value, null, string, to_string, Row, join}
use hepta_dbcli.Csv.{
  csv_field, csv_cell, columns_for, line, lines_of, export_csv, Record, field_value, scan, start,
  strip_utf8_bom, or_default, cell_of, table_of, read_csv, numbered,
}
use hepta_dbcli.Csv.Fields.{between, ReadsAs, IsReadable, csv_field-ReadsAs, empty-ReadsAs}

-- The texts are read as the fields, one by one.
abbrev AllReadAs : List Text → Record → Type 0
AllReadAs [] [] = Unit
AllReadAs (w ∷ ws) (o ∷ os) = ReadsAs w o × AllReadAs ws os
AllReadAs _ _ = ⊥

scan-line :
    (w : Text) (ws : List Text) (o : Option Text) (os : Record)
    → ReadsAs w o
    → AllReadAs ws os
    → (r : Text) (recs : List Record) (cur : Record)
    → scan (line (w ∷ ws) ++ r) (between recs cur)
      ≡ scan r (between (recs ++ (cur ++ o ∷ os) ∷ []) [])
scan-line w [] o [] h hs r recs cur =
    ap (λ (s : Text). scan s (between recs cur)) (append_assoc w (10 ∷ []) r) ∙ h.newline r recs cur
scan-line w (v ∷ ws) o (p ∷ os) h hs r recs cur =
    ap (λ (s : Text). scan s (between recs cur)) (regroup w (join (44 ∷ []) (v ∷ ws)) (10 ∷ []) r)
    ∙ h.comma (line (v ∷ ws) ++ r) recs cur
    ∙ scan-line v ws p os hs.0 hs.1 r recs (cur ++ o ∷ [])
    ∙ ap (λ (c : Record). scan r (between (recs ++ c ∷ []) [])) (append_assoc cur (o ∷ []) (p ∷ os))
  where
    regroup : (a b c d : Text) → (((a ++ 44 ∷ []) ++ b) ++ c) ++ d ≡ a ++ 44 ∷ ((b ++ c) ++ d)
    regroup a b c d =
        append_assoc ((a ++ 44 ∷ []) ++ b) c d
        ∙ append_assoc (a ++ 44 ∷ []) b (c ++ d)
        ∙ append_assoc a (44 ∷ []) (b ++ (c ++ d))
        ∙ ap (λ (t : Text). a ++ 44 ∷ t) (sym (append_assoc b c d))
scan-line w [] o (p ∷ os) h hs r recs cur = absurd hs
scan-line w (v ∷ ws) o [] h hs r recs cur = absurd hs

-- What a cell is read as: its text, and NULL for NULL.
abbrev pub read_cell : Value → Value
unfolding to_string
read_cell null = null
read_cell (string t) = string t
read_cell v = string (to_string v)

-- A cell that is read back: a text that the reader gives back, and for a value that is no text one that is
-- not empty.
abbrev pub IsReadableCell : Value → Type 0
unfolding to_string
IsReadableCell null = Unit
IsReadableCell (string t) = IsReadable t
IsReadableCell v = IsReadable (to_string v) × (to_string v ≢ [])

abbrev pub AllReadable : Row → Type 0
unfolding IsReadableCell
AllReadable [] = Unit
AllReadable (v ∷ vs) = IsReadableCell v × AllReadable vs

abbrev field_of : Value → Option Text
unfolding to_string
field_of null = none
field_of (string t) = some t
field_of v = some (to_string v)

field_value-some : (t : Text) → t ≢ [] → field_value t false ≡ some t
field_value-some [] h = absurd (h refl)
field_value-some (c ∷ t) h = refl

shown-ReadsAs : (t : Text) → IsReadable t × (t ≢ []) → ReadsAs (csv_field t) (some t)
shown-ReadsAs t h = rw (← field_value-some t h.1) (csv_field-ReadsAs t h.0)

csv_cell-ReadsAs : (v : Value) → IsReadableCell v → ReadsAs (csv_cell v) (field_of v)
unfolding csv_cell IsReadableCell field_of
csv_cell-ReadsAs null h = csv_field-ReadsAs [] (λ e. cc)
csv_cell-ReadsAs (string []) h = empty-ReadsAs
csv_cell-ReadsAs (string (c ∷ t)) h = csv_field-ReadsAs (c ∷ t) h
csv_cell-ReadsAs v h = shown-ReadsAs (to_string v) h

csv_cells-ReadAs : (row : Row) → AllReadable row → AllReadAs (map csv_cell row) (map field_of row)
unfolding AllReadable
csv_cells-ReadAs [] h = tt
csv_cells-ReadAs (v ∷ vs) h = (csv_cell-ReadsAs v h.0, csv_cells-ReadAs vs h.1)

-- The rows of a table: none without cells, and every cell is read back.
abbrev pub AllRowsReadable : List Row → Type 0
unfolding AllReadable
AllRowsReadable [] = Unit
AllRowsReadable (row ∷ rows) = (row ≢ []) × AllReadable row × AllRowsReadable rows

scan-row :
    (row : Row) (r : Text) (recs : List Record)
    → row ≢ []
    → AllReadable row
    → scan (line (map csv_cell row) ++ r) (between recs [])
      ≡ scan r (between (recs ++ map field_of row ∷ []) [])
scan-row [] r recs some_cells h = absurd (some_cells refl)
scan-row (v ∷ vs) r recs some_cells h =
    let each = csv_cells-ReadAs (v ∷ vs) h in
    scan-line (csv_cell v) (map csv_cell vs) (field_of v) (map field_of vs) each.0 each.1 r recs []

scan-lines :
    (rows : List Row) (recs : List Record)
    → AllRowsReadable rows
    → scan (lines_of rows) (between recs []) ≡ recs ++ map (map field_of) rows
unfolding scan lines_of AllRowsReadable
scan-lines [] recs h = sym (append-nil recs)
scan-lines (row ∷ rows) recs h =
    scan-row row (lines_of rows) recs h.0 h.1
    ∙ scan-lines rows (recs ++ map field_of row ∷ []) h.2
    ∙ append_assoc recs (map field_of row ∷ []) (map (map field_of) rows)

-- The header.
abbrev pub AllNamesReadable : List Text → Type 0
AllNamesReadable [] = Unit
AllNamesReadable (n ∷ ns) = IsReadable n × AllNamesReadable ns

abbrev name_field : Text → Option Text
name_field n = field_value n false

names-ReadAs :
    (ns : List Text) → AllNamesReadable ns → AllReadAs (map csv_field ns) (map name_field ns)
names-ReadAs [] h = tt
names-ReadAs (n ∷ ns) h = (csv_field-ReadsAs n h.0, names-ReadAs ns h.1)

map-or_default : (ns : List Text) → map or_default (map name_field ns) ≡ ns
map-or_default [] = refl
map-or_default ([] ∷ ns) = ap (λ (t : List Text). [] ∷ t) (map-or_default ns)
map-or_default ((c ∷ n) ∷ ns) = ap (λ (t : List Text). (c ∷ n) ∷ t) (map-or_default ns)

length-numbered : (n i : ℕ) → length (numbered n i) ≡ n
unfolding numbered
length-numbered zero i = refl
length-numbered (suc n) i = ap suc (length-numbered n (suc i))

length-columns_for : (names : Option (List Text)) (n : ℕ) → length (columns_for names n) ≡ n
unfolding columns_for
length-columns_for none n = length-numbered n 0
length-columns_for (some names) n =
    if-cases (λ (ns : List Text). length ns ≡ n) (length names == n)
      (λ e. (==_iff (length names) n).0 e) (λ _. length-numbered n 0)

scan-header :
    (ns : List Text) (r : Text)
    → ns ≢ []
    → AllNamesReadable ns
    → scan (line (map csv_field ns) ++ r) (between [] [])
      ≡ scan r (between (map name_field ns ∷ []) [])
scan-header [] r some_names h = absurd (some_names refl)
scan-header (n ∷ ns) r some_names h =
    let each = names-ReadAs (n ∷ ns) h in
    scan-line (csv_field n) (map csv_field ns) (name_field n) (map name_field ns) each.0 each.1 r []
      []

map-cell_of : (row : Row) → map cell_of (map field_of row) ≡ map read_cell row
unfolding field_of read_cell
map-cell_of [] = refl
map-cell_of (v ∷ vs) = ap₂ (λ (w : Value) (ws : Row). w ∷ ws) (cell_of-field_of v) (map-cell_of vs)
  where
    cell_of-field_of : (v : Value) → cell_of (field_of v) ≡ read_cell v
    cell_of-field_of null = refl
    cell_of-field_of (string t) = refl
    cell_of-field_of _ = refl

map-map-cell_of :
    (rows : List Row) → map (map cell_of) (map (map field_of) rows) ≡ map (map read_cell) rows
map-map-cell_of [] = refl
map-map-cell_of (row ∷ rows) =
    ap₂ (λ (w : Row) (ws : List Row). w ∷ ws) (map-cell_of row) (map-map-cell_of rows)

columns-ne-nil :
    (names : Option (List Text)) (row : Row) → row ≢ [] → columns_for names (length row) ≢ []
columns-ne-nil names [] h e = h refl
columns-ne-nil names (v ∷ vs) h e =
    absurd (omega (arith, length-columns_for names (suc (length vs)), ap length e))

scan-export :
    (ns : List Text) (rows : List Row)
    → ns ≢ []
    → AllNamesReadable ns
    → AllRowsReadable rows
    → scan (line (map csv_field ns) ++ lines_of rows) start
      ≡ map name_field ns ∷ map (map field_of) rows
scan-export ns rows some_names header readable =
    scan-header ns (lines_of rows) some_names header
    ∙ scan-lines rows (map name_field ns ∷ []) readable

-- A table with at least one row, written and read, gives its column names and its rows, each cell as its
-- text and NULL as NULL: if no row is empty, a name or a cell that holds a CR holds a comma, a quote or an
-- LF too, no value but a string is written as the empty text, and the file does not begin with a byte order
-- mark.
pub read_csv-export_csv :
    (names : Option (List Text)) (row : Row) (rows : List Row)
    → AllNamesReadable (columns_for names (length row))
    → AllRowsReadable (row ∷ rows)
    → strip_utf8_bom (export_csv names (row ∷ rows)) ≡ export_csv names (row ∷ rows)
    → read_csv (export_csv names (row ∷ rows))
      ≡ (columns_for names (length row), map (map read_cell) (row ∷ rows))
unfolding read_csv export_csv AllRowsReadable
read_csv-export_csv names row rows header readable bom = rw bom (
    ap table_of (
      scan-export (columns_for names (length row)) (row ∷ rows)
        (columns-ne-nil names row readable.0) header readable)
    ∙ ap₂ (λ (ns : List Text) (rs : List Row). (ns, rs))
        (map-or_default (columns_for names (length row))) (map-map-cell_of (row ∷ rows)))
