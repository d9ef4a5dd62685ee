-- ===== src/Text.antt =====
-- Rust's `str` as the program uses it: a text is the list of its code points. The program cuts
-- texts only at ASCII characters, so that byte offsets and code points cut alike.
pub mod Laws
use Prim.Native.Char.{code}
use Prim.Native.String.{String}
use mathlib.Core.List.{reverse}
use hepta_dbcli.Prelude.{
  ℕ, ◌+◌, ◌-◌, Bool, true, false, not, ◌&&◌, ◌||◌, List, [], ◌∷◌, ◌++◌, map, ltb, leb, ◌==◌,
  if◌then◌else◌,
}

abbrev pub Text : Type 0
Text = List ℕ

abbrev pub codes : String → Text
codes String.[] = []
codes (String.◌∷◌ c s) = code c ∷ codes s

abbrev pub within : ℕ → ℕ → ℕ → Bool
within lo hi c = leb lo c && leb c hi

-- `==` on texts
unfoldable pub text_eq : Text → Text → Bool
text_eq [] [] = true
text_eq (a ∷ s) (b ∷ t) = a == b && text_eq s t
text_eq _ _ = false

-- `[&str]::contains`, and `iter().any` of a comparison
unfoldable pub one_of : Text → List Text → Bool
unfolding text_eq
one_of w [] = false
one_of w (k ∷ ks) = text_eq k w || one_of w ks

-- `char::is_whitespace`: the code points with the property White_Space
unfoldable pub is_space : ℕ → Bool
is_space c =
    within 9 13 c
    || c == 32
    || c == 0x85
    || c == 0xa0
    || c == 0x1680
    || within 0x2000 0x200a c
    || within 0x2028 0x2029 c
    || c == 0x202f
    || c == 0x205f
    || c == 0x3000

-- `char::is_ascii_alphanumeric`, and `_`
unfoldable pub is_word : ℕ → Bool
is_word c = within b'0' b'9' c || within b'A' b'Z' c || within b'a' b'z' c || c == b'_'

-- `split(p)`: a separator ends a word, so the words are one more than the separators
abbrev pub cons_to_first : ℕ → List Text → List Text
cons_to_first c [] = (c ∷ []) ∷ []
cons_to_first c (w ∷ ws) = (c ∷ w) ∷ ws

module _ (p : ℕ → Bool) where
  -- `trim_start_matches(p)`
  unfoldable pub drop_while : Text → Text
  drop_while [] = []
  drop_while (c ∷ s) = let rest = drop_while s in if p c then rest else c ∷ s

  -- `trim_end_matches(p)`: a character goes if it matches and all behind it do
  abbrev pub cons_unless_trimmed : ℕ → Text → Text
  cons_unless_trimmed c [] = if p c then [] else c ∷ []
  cons_unless_trimmed c (d ∷ s) = c ∷ d ∷ s

  unfoldable pub drop_end_while : Text → Text
  drop_end_while [] = []
  drop_end_while (c ∷ s) = cons_unless_trimmed c (drop_end_while s)

  -- the part in front of the first match
  unfoldable pub take_until : Text → Text
  take_until [] = []
  take_until (c ∷ s) = let rest = take_until s in if p c then [] else c ∷ rest

  unfoldable pub split : Text → List Text
  split [] = [] ∷ []
  split (c ∷ s) = let rest = split s in if p c then [] ∷ rest else cons_to_first c rest

abbrev pub trim_start : Text → Text
trim_start = drop_while is_space

abbrev pub trim_end : Text → Text
trim_end = drop_end_while is_space

abbrev pub trim : Text → Text
trim s = trim_end (trim_start s)

unfoldable pub starts_with : Text → Text → Bool
starts_with [] s = true
starts_with (a ∷ p) [] = false
starts_with (a ∷ p) (b ∷ s) = a == b && starts_with p s

-- `s.contains(p)`
unfoldable pub contains : Text → Text → Bool
unfolding starts_with
contains p [] = starts_with p []
contains p (c ∷ s) = starts_with p (c ∷ s) || contains p s

unfoldable pub ends_with : Text → Text → Bool
unfolding starts_with
ends_with p s = starts_with (reverse p) (reverse s)

-- `starts_with` of any of several
unfoldable pub starts_with_any : List Text → Text → Bool
unfolding starts_with
starts_with_any [] s = false
starts_with_any (p ∷ ps) s = starts_with p s || starts_with_any ps s

-- `char::to_uppercase`. Above ASCII it is a table of Unicode's, which may give several characters;
-- `wide` stands for it.
abbrev pub upper_char : (ℕ → Text) → ℕ → Text
upper_char wide c =
    if within b'a' b'z' c then (c - 32) ∷ [] else if ltb c 128 then c ∷ [] else wide c

unfoldable pub to_uppercase : (ℕ → Text) → Text → Text
to_uppercase wide [] = []
to_uppercase wide (c ∷ s) = upper_char wide c ++ to_uppercase wide s

-- `char::to_ascii_lowercase`
abbrev pub lower_ascii : ℕ → ℕ
lower_ascii c = if within b'A' b'Z' c then c + 32 else c

-- `eq_ignore_ascii_case`
unfoldable pub eq_ignore_ascii_case : Text → Text → Bool
unfolding text_eq
eq_ignore_ascii_case s t = text_eq (map lower_ascii s) (map lower_ascii t)

-- `char::to_lowercase`. Above ASCII it is a table of Unicode's; `wide` stands for it.
abbrev pub lower_char : (ℕ → Text) → ℕ → Text
lower_char wide c = if ltb c 128 then lower_ascii c ∷ [] else wide c

unfoldable pub to_lowercase : (ℕ → Text) → Text → Text
to_lowercase wide [] = []
to_lowercase wide (c ∷ s) = lower_char wide c ++ to_lowercase wide s

-- `split(p).next()`: the text in front of the first `p`, all of it if there is none
unfoldable pub before : Text → Text → Text
unfolding starts_with
before p [] = []
before p (c ∷ s) = let rest = before p s in if starts_with p (c ∷ s) then [] else c ∷ rest
