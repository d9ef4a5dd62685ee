-- ===== src/Expr/Lex.antt =====
-- The tokens of an expression: `lex` of dbcli/src/synth/expr.rs. A text is its code points here;
-- the positions that errors carry are offsets in UTF-8, as in the source.
pub mod Total
use hepta_dbcli.Prelude.{
  ℕ, zero, suc, ◌+◌, ◌*◌, ◌/◌, ◌≤◌, ◌<◌, ltb, ◌==◌, Bool, true, false, not, ◌&&◌, ◌||◌, List, [],
  ◌∷◌, ◌++◌, Option, none, some, length, if◌then◌else◌, ◌≡◌, refl, arith, Bool-cases, inl, inr,
}
use hepta_dbcli.Decimals.{DecimalOps}
use hepta_dbcli.Text.{Text, codes, within, is_word, take_until, drop_while}
use hepta_dbcli.Expr.{
  ExprError, syntax, Result, ok, err, panic, out_of_fuel, ◌>>=◌, Returns, Returns->>=, Token,
  Spanned,
}

-- The bytes of a character in UTF-8.
abbrev pub utf8_len : ℕ → ℕ
utf8_len c = if ltb c 0x80 then 1 else if ltb c 0x800 then 2 else if ltb c 0x10000 then 3 else 4

abbrev pub utf8_length : Text → ℕ
utf8_length [] = 0
utf8_length (c ∷ s) = utf8_len c + utf8_length s

-- The first of them, as a character.
abbrev pub lead_byte : ℕ → ℕ
lead_byte c =
    if ltb c 0x80
    then c
    else if ltb c 0x800
    then 0xc0 + c / 0x40
    else if ltb c 0x10000
    then 0xe0 + c / 0x1000
    else 0xf0 + c / 0x40000

-- `u8::is_ascii_whitespace`
abbrev pub ascii_space : ℕ → Bool
ascii_space c = c == 32 || c == 9 || c == 10 || c == 12 || c == 13

abbrev pub digit : ℕ → Bool
digit c = within b'0' b'9' c

abbrev pub letter : ℕ → Bool
letter c = within b'a' b'z' c || within b'A' b'Z' c || c == b'_'

abbrev pub not_quote : ℕ → Bool
not_quote c = not (c == 39)

-- The digits in front, and what is behind them.
unfoldable pub digits_of : Text → Text × Text
unfolding take_until drop_while
digits_of s = (take_until (λ c. not (digit c)) s, drop_while digit s)

-- A number's text: digits, and a point with digits if a digit follows the point.
unfoldable pub fraction : Text → Text → Text × Text
unfolding digits_of
fraction whole (p ∷ d ∷ s) =
    if p == b'.' && digit d
    then (whole ++ p ∷ (digits_of (d ∷ s)).0, (digits_of (d ∷ s)).1)
    else (whole, p ∷ d ∷ s)
fraction whole s = (whole, s)

abbrev pub starts : ℕ → Text → Bool
starts a [] = false
starts a (c ∷ s) = c == a

abbrev pub rest_of : Text → Text
rest_of [] = []
rest_of (c ∷ s) = s

module _ (ops : DecimalOps) where
  -- What one round of the loop gives: a token, unless it skips a blank; the next position; the rest.
  abbrev pub Round : Type 0
  Round = Option (Spanned ops.Number) × ℕ × Text

  abbrev pub spanned : Token ops.Number → ℕ → Option (Spanned ops.Number)
  spanned t p = some (record { token = t; position = p })

  unfoldable punctuation : ℕ → Option (Token ops.Number)
  punctuation c =
      if c == b'('
      then some Token.l_paren
      else if c == b')'
      then some Token.r_paren
      else if c == b'['
      then some Token.l_bracket
      else if c == b']'
      then some Token.r_bracket
      else if c == b','
      then some Token.comma
      else if c == b'.'
      then some Token.dot
      else if c == b'+'
      then some Token.plus
      else if c == b'-'
      then some Token.minus
      else if c == b'*'
      then some Token.star
      else if c == b'/'
      then some Token.slash
      else if c == b'%'
      then some Token.percent
      else none

  -- A string literal's body, and the text from its closing quote on.
  abbrev pub close_quote : ℕ → Text → Text → Result Round
  close_quote p body [] = err (syntax (codes "unterminated string literal (missing closing `'`)") p)
  close_quote p body (q ∷ rest) = ok (spanned (Token.str body) p, p + utf8_length body + 2, rest)

  unfoldable quoted : ℕ → Text → Result Round
  unfolding take_until drop_while
  quoted p s = close_quote p (take_until (λ c. not (not_quote c)) s) (drop_while not_quote s)

  abbrev pub read_number : ℕ → Text → Text → Option ops.Number → Result Round
  read_number p text rest none =
      err (syntax (codes "invalid numeric literal `" ++ text ++ codes "`") p)
  read_number p text rest (some v) = ok (spanned (Token.number v) p, p + length text, rest)

  unfoldable numeral : ℕ → Text → Result Round
  unfolding digits_of fraction
  numeral p s =
      let (text, rest) = fraction (digits_of s).0 (digits_of s).1 in
      read_number p text rest (ops.parse text)

  unfoldable word : ℕ → Text → Result Round
  unfolding take_until drop_while is_word
  word p s =
      let name = take_until (λ c. not (is_word c)) s in
      ok (spanned (Token.ident name) p, p + length name, drop_while is_word s)

  -- A character that stands for a token only twice, or in front of `=`.
  unfoldable paired : ℕ → Token ops.Number → Text → ℕ → Text → Result Round
  paired a t message p s =
      if starts a s
      then ok (spanned t p, p + 2, rest_of s)
      else err (syntax (codes "unexpected " ++ message) p)

  unfoldable ordering : Token ops.Number → Token ops.Number → ℕ → Text → Result Round
  ordering strict weak p s =
      if starts b'=' s
      then ok (spanned weak p, p + 2, rest_of s)
      else ok (spanned strict p, p + 1, s)

  unfoldable other_char : ℕ → ℕ → Text → Result Round
  unfolding quoted numeral word paired ordering
  other_char p c s =
      if c == 39
      then quoted p s
      else if digit c
      then numeral p (c ∷ s)
      else if letter c
      then word p (c ∷ s)
      else if c == b'='
      then paired b'=' Token.eq_eq (codes "`=`; use `==` for equality") p s
      else if c == b'!'
      then paired b'=' Token.not_eq (codes "`!`; use `!=` for inequality") p s
      else if c == b'<'
      then ordering Token.lt Token.le p s
      else if c == b'>'
      then ordering Token.gt Token.ge p s
      else if c == b'&'
      then paired b'&' Token.and_and (codes "`&`; use `&&` for logical and") p s
      else if c == b'|'
      then paired b'|' Token.or_or (codes "`|`; use `||` for logical or") p s
      else err (syntax (codes "unexpected character `" ++ lead_byte c ∷ codes "`") p)

  unfoldable by_punctuation : ℕ → ℕ → Text → Option (Token ops.Number) → Result Round
  unfolding other_char
  by_punctuation p c s none = other_char p c s
  by_punctuation p c s (some t) = ok (spanned t p, p + 1, s)

  unfoldable lex_round : ℕ → ℕ → Text → Result Round
  unfolding punctuation by_punctuation
  lex_round p c s =
      if ascii_space c then ok (none, p + 1, s) else by_punctuation p c s (punctuation c)

  abbrev pub push :
      Option (Spanned ops.Number) → List (Spanned ops.Number) → List (Spanned ops.Number)
  push none ts = ts
  push (some t) ts = t ∷ ts

  -- The loop, on fuel: one unit for a character is enough.
  unfoldable lex_on : ℕ → ℕ → Text → Result (List (Spanned ops.Number))
  unfolding lex_round
  lex_on fuel p [] = ok []
  lex_on zero p (c ∷ s) = out_of_fuel
  lex_on (suc fuel) p (c ∷ s) = do
    (token, next, rest) ← lex_round p c s
    more ← lex_on fuel next rest
    ok (push token more)

  unfoldable pub lex : Text → Result (List (Spanned ops.Number))
  unfolding lex_on
  lex s = lex_on (length s) 0 s
