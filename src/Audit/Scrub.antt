-- ===== src/Audit/Scrub.antt =====
-- dbcli/src/audit/scrub.rs: redact_dsn, percent_decode and truncate_for_audit.
pub mod Redact
pub mod Decode
pub mod Truncate
use hepta_dbcli.Prelude.{
  ℕ, zero, suc, ◌+◌, ◌-◌, ◌*◌, ◌==◌, Bool, true, false, ◌&&◌, ◌||◌, List, [], ◌∷◌, ◌++◌, Option,
  none, some, length, leb, ltb, take, drop, if◌then◌else◌,
}
use hepta_dbcli.Text.{Text, codes, starts_with, within}

abbrev pub after_one : Option ℕ → Option ℕ
after_one none = none
after_one (some i) = some (suc i)

-- `s.find(p)` of a text
unfoldable pub find : Text → Text → Option ℕ
unfolding starts_with
find p [] = if starts_with p [] then some 0 else none
find p (c ∷ s) = let rest = find p s in if starts_with p (c ∷ s) then some 0 else after_one rest

-- `s.find(p)` of a test
unfoldable pub position : (ℕ → Bool) → Text → Option ℕ
position p [] = none
position p (c ∷ s) = let rest = position p s in if p c then some 0 else after_one rest

-- `s.rfind(c)` of a character
unfoldable pub rfind : ℕ → Text → Option ℕ
rfind c [] = none
rfind c (d ∷ s) = elim (rfind c s) [
  | some i ↦ some (suc i)
  | none ↦ if d == c then some 0 else none
]

abbrev pub or_else : Option ℕ → ℕ → ℕ
or_else none d = d
or_else (some i) d = i

abbrev pub plus_three : Option ℕ → ℕ
plus_three none = 0
plus_three (some i) = i + 3

abbrev pub ends_authority : ℕ → Bool
ends_authority c = c == 47 || c == 63

abbrev pub authority_of : Text → Text
unfolding position
authority_of rest = take (or_else (position ends_authority rest) (length rest)) rest

-- The password stands between the last colon before the last `@` and that `@`.
unfoldable pub strike : Text → ℕ → Text → Text
unfolding rfind
strike url rest_start authority = elim (rfind 64 authority) [
  | none ↦ url
  | some at ↦ elim (rfind 58 (take at authority)) [
    | none ↦ url
    | some colon ↦ take (rest_start + colon + 1) url ++ codes "****" ++ drop (rest_start + at) url
  ]
]

unfoldable pub redact_dsn : Text → Text
unfolding find strike position
redact_dsn url =
    let rest_start = plus_three (find (codes "://") url) in
    strike url rest_start (authority_of (drop rest_start url))

unfoldable pub hex_val : ℕ → Option ℕ
hex_val b =
    if within b'0' b'9' b
    then some (b - b'0')
    else if within b'a' b'f' b
    then some (b - b'a' + 10)
    else if within b'A' b'F' b
    then some (b - b'A' + 10)
    else none

-- `hi << 4 | lo`, of two digits
abbrev pub joined : Option ℕ → Option ℕ → Option ℕ
joined (some hi) (some lo) = some (hi * 16 + lo)
joined _ _ = none

-- The byte that three bytes stand for.
unfoldable pub escape : ℕ → ℕ → ℕ → Option ℕ
unfolding hex_val
escape c h l = if c == b'%' then joined (hex_val h) (hex_val l) else none

-- `percent_decode` on the bytes of a text, without the reading of the result as UTF-8
unfoldable pub percent_decode : List ℕ → List ℕ
unfolding escape
percent_decode [] = []
percent_decode (c ∷ []) = c ∷ []
percent_decode (c ∷ h ∷ []) = c ∷ h ∷ []
percent_decode (c ∷ h ∷ l ∷ s) = elim (escape c h l) [
  | some b ↦ b ∷ percent_decode s
  | none ↦ c ∷ percent_decode (h ∷ l ∷ s)
]

-- The bytes of a code point in UTF-8.
unfoldable pub width : ℕ → ℕ
width c = if ltb c 0x80 then 1 else if ltb c 0x800 then 2 else if ltb c 0x10000 then 3 else 4

-- `s.len()`
abbrev pub byte_len : Text → ℕ
byte_len [] = 0
byte_len (c ∷ s) = width c + byte_len s

unfoldable pub is_char_boundary : Text → ℕ → Bool
unfolding width
is_char_boundary [] n = n == 0
is_char_boundary (c ∷ s) n = n == 0 || leb (width c) n && is_char_boundary s (n - width c)

-- `&s[..n]`, which panics inside a character
unfoldable pub take_bytes : ℕ → Text → Option Text
unfolding width
take_bytes zero s = some []
take_bytes (suc n) [] = none
take_bytes (suc n) (c ∷ s) = elim (leb (width c) (suc n)) [
  | true ↦ elim (take_bytes (suc n - width c) s) [ none ↦ none | some t ↦ some (c ∷ t) ]
  | false ↦ none
]

unfoldable pub back_up : Text → ℕ → ℕ
unfolding is_char_boundary
back_up s zero = zero
back_up s (suc n) = let less = back_up s n in if is_char_boundary s (suc n) then suc n else less

abbrev pub marked : Option Text → Option (Text × Bool)
marked none = none
marked (some t) = some (t, true)

unfoldable pub truncate_for_audit : Text → ℕ → Option (Text × Bool)
unfolding take_bytes back_up width
truncate_for_audit text max_bytes =
    if leb (byte_len text) max_bytes
    then some (text, false)
    else marked (take_bytes (back_up text max_bytes) text)
