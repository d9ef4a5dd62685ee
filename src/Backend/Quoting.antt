-- ===== src/Backend/Quoting.antt =====
-- The quoting of names and values in dbcli/src/backend/mod.rs, and `contains_bare_limit`.
pub mod ReadBack
pub mod BareLimit
use hepta_dbcli.Prelude.{
  ℕ, zero, suc, ◌+◌, ◌-◌, ◌==◌, Bool, true, false, not, ◌&&◌, ◌||◌, List, [], ◌∷◌, ◌++◌, map,
  Option, none, some, length, take, if◌then◌else◌, leb, drop,
}
use hepta_dbcli.Text.{Text, codes, text_eq, eq_ignore_ascii_case, is_word, within}
use hepta_dbcli.Report.{Value, null, boolean, integer, decimal, string, nested, to_string}

-- `s.replace(q, qq)`, which doubles a character
abbrev pub doubling : ℕ → Text → Text
doubling q [] = []
doubling q (c ∷ s) = if c == q then q ∷ q ∷ doubling q s else c ∷ doubling q s

unfoldable pub quote_ident : ℕ → Text → Text
quote_ident quote name = quote ∷ doubling quote name ++ quote ∷ []

abbrev pub upper_ascii : ℕ → ℕ
upper_ascii c = if within b'a' b'z' c then c - 32 else c

unfoldable pub quote_ident_scheme : Text → ℕ → Text → Text
unfolding quote_ident text_eq
quote_ident_scheme scheme quote name =
    if text_eq scheme (codes "oracle")
    then quote_ident quote (map upper_ascii name)
    else quote_ident quote name

unfoldable pub quote_table_scheme : Text → ℕ → Option Text → Text → Text
unfolding quote_ident_scheme
quote_table_scheme scheme quote none table = quote_ident_scheme scheme quote table
quote_table_scheme scheme quote (some s) table =
    quote_ident_scheme scheme quote s ++ 46 ∷ quote_ident_scheme scheme quote table

unfoldable pub escape_sql_string : Text → Bool → Text
escape_sql_string s backslash_escape = doubling 39 (if backslash_escape then doubling 92 s else s)

abbrev pub literal_of : Text → Bool → Text
unfolding escape_sql_string
literal_of s backslash_escape = 39 ∷ escape_sql_string s backslash_escape ++ 39 ∷ []

unfoldable pub sql_literal : Value → Bool → Text
unfolding to_string literal_of
sql_literal null backslash_escape = codes "NULL"
sql_literal (boolean true) backslash_escape = codes "1"
sql_literal (boolean false) backslash_escape = codes "0"
sql_literal (integer z) backslash_escape = to_string (integer z)
sql_literal (decimal t) backslash_escape = to_string (decimal t)
sql_literal (string s) backslash_escape = literal_of s backslash_escape
sql_literal (nested t) backslash_escape = literal_of (to_string (nested t)) backslash_escape

unfoldable pub sql_literal_as_text : Value → Bool → Text
unfolding to_string literal_of
sql_literal_as_text null backslash_escape = codes "NULL"
sql_literal_as_text (string s) backslash_escape = literal_of s backslash_escape
sql_literal_as_text (integer z) backslash_escape =
    literal_of (to_string (integer z)) backslash_escape
sql_literal_as_text (decimal t) backslash_escape =
    literal_of (to_string (decimal t)) backslash_escape
sql_literal_as_text (boolean true) backslash_escape = 39 ∷ codes "true" ++ 39 ∷ []
sql_literal_as_text (boolean false) backslash_escape = 39 ∷ codes "false" ++ 39 ∷ []
sql_literal_as_text (nested t) backslash_escape = literal_of (to_string (nested t)) backslash_escape

-- Where the scan of `contains_bare_limit` stands: in code, in a quoted text, in a comment.
pub data Place : Type 0 where
  in_code : Place
  in_quoted : ℕ → Place
  in_line : Place
  in_block : Place

unfoldable pub is_identifier_byte : ℕ → Bool
unfolding is_word
is_identifier_byte b = is_word b || b == b'$' || b == b'#'

-- The bytes before and behind the keyword, if there are any.
abbrev pub no_identifier : Option ℕ → Bool
unfolding is_identifier_byte
no_identifier none = true
no_identifier (some b) = not (is_identifier_byte b)

abbrev pub first_of : Text → Option ℕ
first_of [] = none
first_of (c ∷ s) = some c

unfoldable pub matches_limit : Option ℕ → Text → Bool
unfolding eq_ignore_ascii_case no_identifier
matches_limit before s =
    eq_ignore_ascii_case (take 5 s) (codes "LIMIT")
    && (no_identifier before && no_identifier (first_of (drop 5 s)))

abbrev pub opens_quoted : ℕ → Bool
opens_quoted c = c == 39 || c == 34

-- Two characters are taken at once at the start of a comment, at its end and for a doubled quote.
abbrev pub takes_two : Place → ℕ → ℕ → Bool
takes_two in_code c d = c == 45 && d == 45 || c == 47 && d == 42
takes_two (in_quoted q) c d = c == q && d == q
takes_two in_line c d = false
takes_two in_block c d = c == 42 && d == 47

abbrev pub after_two : Place → ℕ → Place
after_two in_code c = if c == 45 then in_line else in_block
after_two (in_quoted q) c = in_quoted q
after_two in_line c = in_line
after_two in_block c = in_code

abbrev pub after_one : Place → ℕ → Place
after_one in_code c = if opens_quoted c then in_quoted c else in_code
after_one (in_quoted q) c = if c == q then in_code else in_quoted q
after_one in_line c = if c == 10 then in_code else in_line
after_one in_block c = in_block

abbrev pub found_at : Place → Option ℕ → Text → Bool
unfolding matches_limit
found_at in_code before s = matches_limit before s
found_at _ before s = false

unfoldable pub bare_limit : Place → Option ℕ → Text → Bool
unfolding found_at
bare_limit place before [] = false
bare_limit place before (c ∷ []) = false
bare_limit place before (c ∷ d ∷ s) = elim (takes_two place c d) [
  | true ↦ bare_limit (after_two place c) (some d) s
  | false ↦ found_at place before (c ∷ d ∷ s) || bare_limit (after_one place c) (some c) (d ∷ s)
]

unfoldable pub contains_bare_limit : Text → Bool
unfolding bare_limit
contains_bare_limit sql = bare_limit in_code none sql
