-- ===== src/Csv.antt =====
-- CSV files of generated tables: the writer `export_csv` of dbcli/src/synth/export.rs and the reader of
-- dbcli/src/tabular.rs. A file is its text; names and rows of one table are the arguments.
pub mod Fields
pub mod RoundTrip
mod Examples
use hepta_dbcli.Prelude.{
  ℕ, zero, suc, ◌==◌, Bool, true, false, not, ◌&&◌, ◌||◌, List, [], ◌∷◌, ◌++◌, map, Option, none,
  some, length, if◌then◌else◌,
}
use hepta_dbcli.Text.{Text, codes, contains}
use hepta_dbcli.Report.{Value, null, string, to_string, Row, digits, join}

-- `s.replace('"', "\"\"")`
abbrev pub doubled : Text → Text
doubled [] = []
doubled (c ∷ s) = if c == 34 then 34 ∷ 34 ∷ doubled s else c ∷ doubled s

-- `s.contains(c)` of a character
abbrev pub holds : ℕ → Text → Bool
holds c [] = false
holds c (d ∷ s) = d == c || holds c s

abbrev pub wants_quotes : Text → Bool
wants_quotes s = holds 44 s || holds 34 s || holds 10 s

unfoldable pub csv_field : Text → Text
csv_field s = if wants_quotes s then 34 ∷ doubled s ++ 34 ∷ [] else s

unfoldable pub csv_cell : Value → Text
unfolding csv_field to_string
csv_cell (string []) = 34 ∷ 34 ∷ []
csv_cell (string (c ∷ s)) = csv_field (c ∷ s)
csv_cell null = []
csv_cell v = csv_field (to_string v)

-- The names of the columns, if there is one for each cell of the first row; else numbered names.
abbrev pub numbered : ℕ → ℕ → List Text
unfolding digits
numbered zero i = []
numbered (suc n) i = (codes "col_" ++ digits i) ∷ numbered n (suc i)

unfoldable pub columns_for : Option (List Text) → ℕ → List Text
unfolding numbered
columns_for none n = numbered n 0
columns_for (some names) n = if length names == n then names else numbered n 0

-- `writeln!(file, "{}", values.join(","))`
abbrev pub line : List Text → Text
line fields = join (44 ∷ []) fields ++ 10 ∷ []

abbrev pub lines_of : List Row → Text
unfolding csv_cell
lines_of [] = []
lines_of (row ∷ rows) = line (map csv_cell row) ++ lines_of rows

unfoldable pub export_csv : Option (List Text) → List Row → Text
unfolding csv_field columns_for lines_of
export_csv names [] = []
export_csv names (row ∷ rows) =
    line (map csv_field (columns_for names (length row))) ++ lines_of (row ∷ rows)

abbrev pub Record : Type 0
Record = List (Option Text)

-- The variables of the reader's loop.
pub record Scan : Type 0 where
  pub records : List Record
  pub current : Record
  pub field : Text
  pub field_is_quoted : Bool
  pub in_quotes : Bool

abbrev pub field_value : Text → Bool → Option Text
field_value [] false = none
field_value [] true = some []
field_value (c ∷ s) quoted = some (c ∷ s)

abbrev pub end_field : Scan → Scan
end_field st = record st {
  current = st.current ++ field_value st.field st.field_is_quoted ∷ [];
  field = [];
  field_is_quoted = false;
}

abbrev pub end_record : Scan → Scan
end_record st = record st {
  records = st.records ++ (st.current ++ field_value st.field st.field_is_quoted ∷ []) ∷ [];
  current = [];
  field = [];
  field_is_quoted = false;
}

abbrev pub push : ℕ → Scan → Scan
push c st = record st { field = st.field ++ c ∷ [] }

abbrev pub no_text : Text → Bool
no_text [] = true
no_text (c ∷ s) = false

-- Two characters that the loop takes at once: a doubled quote in a quoted field, and CR LF outside.
abbrev pub takes_two : ℕ → ℕ → Scan → Bool
takes_two c d st = if st.in_quotes then c == 34 && d == 34 else c == 13 && d == 10

abbrev pub on_two : Scan → Scan
on_two st = if st.in_quotes then push 34 st else end_record st

abbrev pub on_char : ℕ → Scan → Scan
on_char c st =
    if st.in_quotes
    then (if c == 34 then record st { in_quotes = false } else push c st)
    else if c == 34 && no_text st.field
    then record st { in_quotes = true; field_is_quoted = true }
    else if c == 44
    then end_field st
    else if c == 10 || c == 13
    then end_record st
    else push c st

abbrev pub no_fields : Record → Bool
no_fields [] = true
no_fields (f ∷ fs) = false

abbrev pub finish : Scan → List Record
finish st =
    if not (no_text st.field) || st.field_is_quoted || not (no_fields st.current)
    then (end_record st).records
    else st.records

unfoldable pub scan : Text → Scan → List Record
scan [] st = finish st
scan (c ∷ []) st = finish (on_char c st)
scan (c ∷ d ∷ s) st = elim (takes_two c d st) [
  | true ↦ scan s (on_two st)
  | false ↦ scan (d ∷ s) (on_char c st)
]

abbrev pub start : Scan
start = record {
  records = [];
  current = [];
  field = [];
  field_is_quoted = false;
  in_quotes = false;
}

unfoldable pub parse_csv_records : Text → List Record
unfolding scan
parse_csv_records s = scan s start

-- `content.strip_prefix('\u{feff}').unwrap_or(content)`
unfoldable pub strip_utf8_bom : Text → Text
strip_utf8_bom [] = []
strip_utf8_bom (c ∷ s) = if c == 0xfeff then s else c ∷ s

abbrev pub or_default : Option Text → Text
or_default none = []
or_default (some t) = t

abbrev pub cell_of : Option Text → Value
cell_of none = null
cell_of (some t) = string t

abbrev pub table_of : List Record → List Text × List Row
table_of [] = ([], [])
table_of (header ∷ records) = (map or_default header, map (map cell_of) records)

-- `read_csv` of a file that can be read
unfoldable pub read_csv : Text → List Text × List Row
unfolding parse_csv_records strip_utf8_bom
read_csv content = table_of (parse_csv_records (strip_utf8_bom content))
