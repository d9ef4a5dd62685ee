-- ===== src/Report.antt =====
-- The rows that every strategy reports: `DiffRow` and `DiffStatus` of dbcli/src/delta_diff/report.rs,
-- on the part of `serde_json::Value` that a database row holds.
use hepta_dbcli.Prelude.{
  ℕ, zero, suc, ◌+◌, ◌/◌, ◌%◌, ltb, ◌==◌, Bool, true, false, List, [], ◌∷◌, ◌++◌, map, Option,
  if◌then◌else◌,
}
use hepta_dbcli.Prelude.Int.{ℤ, pos, negsuc}
use hepta_dbcli.Text.{Text, codes}

-- A JSON value of a cell. A number that is no integer is held as the text it is printed as; a cell
-- that is an array or an object is held likewise.
pub data Value : Type 0 where
  null : Value
  boolean : Bool → Value
  integer : ℤ → Value
  decimal : Text → Value
  string : Text → Value
  nested : Text → Value

abbrev pub Row : Type 0
Row = List Value

pub data DiffStatus : Type 0 where
  missing_left : DiffStatus
  missing_right : DiffStatus
  modified : DiffStatus

-- The key of a row: a value, or the array of the values of a composite key.
pub data DiffKey : Type 0 where
  single : Value → DiffKey
  composite : Row → DiffKey

pub record DiffRow : Type 0 where
  pub key : DiffKey
  pub left : Option Row
  pub right : Option Row
  pub status : DiffStatus
  pub confirmed : Bool

-- The decimal digits of a number, on fuel that the number itself bounds.
unfoldable pub digits_on : ℕ → ℕ → Text → Text
digits_on zero n acc = acc
digits_on (suc fuel) n acc =
    let rest = digits_on fuel (n / 10) ((48 + n % 10) ∷ acc) in
    if ltb n 10 then (48 + n % 10) ∷ acc else rest

unfoldable pub digits : ℕ → Text
unfolding digits_on
digits n = digits_on (suc n) n []

abbrev pub int_text : ℤ → Text
int_text (pos n) = digits n
int_text (negsuc n) = 45 ∷ digits (suc n)

-- `str::cmp`: `a <= b`, by the code points, whose order is that of the bytes of UTF-8
unfoldable pub text_le : Text → Text → Bool
text_le [] t = true
text_le (a ∷ s) [] = false
text_le (a ∷ s) (b ∷ t) = if a == b then text_le s t else ltb a b

hex_digit : ℕ → ℕ
hex_digit n = if ltb n 10 then 48 + n else 87 + n

-- A character of a JSON string, as `serde_json` prints it.
unfoldable escape_char : ℕ → Text
unfolding hex_digit
escape_char c =
    if c == 34
    then 92 ∷ 34 ∷ []
    else if c == 92
    then 92 ∷ 92 ∷ []
    else if c == 8
    then 92 ∷ 98 ∷ []
    else if c == 9
    then 92 ∷ 116 ∷ []
    else if c == 10
    then 92 ∷ 110 ∷ []
    else if c == 12
    then 92 ∷ 102 ∷ []
    else if c == 13
    then 92 ∷ 114 ∷ []
    else if ltb c 32
    then 92 ∷ 117 ∷ 48 ∷ 48 ∷ hex_digit (c / 16) ∷ hex_digit (c % 16) ∷ []
    else c ∷ []

unfoldable escape_chars : Text → Text
unfolding escape_char
escape_chars [] = []
escape_chars (c ∷ s) = escape_char c ++ escape_chars s

-- `Value::to_string`, the compact form
unfoldable pub to_string : Value → Text
unfolding digits escape_chars
to_string null = codes "null"
to_string (boolean true) = codes "true"
to_string (boolean false) = codes "false"
to_string (integer z) = int_text z
to_string (decimal t) = t
to_string (string t) = 34 ∷ escape_chars t ++ 34 ∷ []
to_string (nested t) = t

unfoldable pub value_text : Value → Text
unfolding to_string
value_text (string t) = t
value_text v = to_string v

-- `join`
abbrev pub join : Text → List Text → Text
join sep [] = []
join sep (t ∷ []) = t
join sep (t ∷ u ∷ ts) = t ++ sep ++ join sep (u ∷ ts)

-- `to_string` of a key
unfoldable pub key_text : DiffKey → Text
unfolding to_string
key_text (single v) = to_string v
key_text (composite vs) = codes "[" ++ join (codes ",") (map to_string vs) ++ codes "]"
