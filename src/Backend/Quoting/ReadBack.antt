-- ===== src/Backend/Quoting/ReadBack.antt =====
-- Quoted names and values of dbcli/src/backend/mod.rs, as a server reads them.
use hepta_dbcli.Prelude.{
  eq_self, ℕ, ◌==◌, Bool, true, false, ◌&&◌, [], ◌∷◌, ◌++◌, Option, none, some, if◌then◌else◌, ◌≡◌,
  refl, ap, ◌∙◌, Bool-cases, inl, inr, ==_iff,
}
use mathlib.Core.List.{append_assoc}
use hepta_dbcli.Text.{Text}
use hepta_dbcli.Text.Laws.{StartsNot}
use hepta_dbcli.Report.{string}
use hepta_dbcli.Backend.Quoting.{doubling, quote_ident, escape_sql_string, sql_literal}

abbrev with_char : ℕ → Option (Text × Text) → Option (Text × Text)
with_char c none = none
with_char c (some r) = some (c ∷ r.0, r.1)

-- How a server reads a quoted text behind its opening quote: the text, and what follows the closing quote. A
-- doubled quote is a quote; where the server knows escapes, a doubled backslash is a backslash.
unfoldable pub read_quoted : ℕ → Bool → Text → Option (Text × Text)
read_quoted q escapes [] = none
read_quoted q escapes (c ∷ []) = if c == q then some ([], []) else none
read_quoted q escapes (c ∷ d ∷ s) = elim (c == q) [
  | true ↦ elim (d == q) [ true ↦ with_char q (read_quoted q escapes s) | false ↦ some ([], d ∷ s) ]
  | false ↦ elim (escapes && c == 92) [
    | true ↦ elim (d == 92) [ true ↦ with_char 92 (read_quoted q escapes s) | false ↦ none ]
    | false ↦ with_char c (read_quoted q escapes (d ∷ s))
  ]
]

module _ (q : ℕ) where
  abbrev pub same : ℕ → Bool
  same c = c == q

  read_end :
      (escapes : Bool) (rest : Text)
      → StartsNot same rest
      → read_quoted q escapes (q ∷ rest) ≡ some ([], rest)
  unfolding read_quoted
  read_end escapes [] h = rw (eq_self q) refl
  read_end escapes (d ∷ rest) h = rw (read_quoted, eq_self q, h) refl

  read_doubled :
      (escapes : Bool) (s : Text)
      → read_quoted q escapes (q ∷ q ∷ s) ≡ with_char q (read_quoted q escapes s)
  unfolding read_quoted
  read_doubled escapes s = rw (read_quoted, eq_self q, eq_self q) refl

  read_plain :
      (escapes : Bool) (c : ℕ) (s : Text)
      → (c == q) ≡ false
      → (escapes && c == 92) ≡ false
      → read_quoted q escapes (c ∷ s) ≡ with_char c (read_quoted q escapes s)
  unfolding read_quoted
  read_plain escapes c [] h k = rw h refl
  read_plain escapes c (d ∷ s) h k = rw (read_quoted, h, k) refl

  -- A doubled text between quotes is read back.
  doubling-read :
      (s rest : Text)
      → StartsNot same rest
      → read_quoted q false (doubling q s ++ q ∷ rest) ≡ some (s, rest)
  doubling-read [] rest h = read_end false rest h
  doubling-read (c ∷ s) rest h = elim (Bool-cases (c == q)) [
    | inl e ↦ rw e (
        read_doubled false (doubling q s ++ q ∷ rest)
        ∙ rw (doubling-read s rest h, (==_iff c q).0 e) refl)
    | inr e ↦ rw e (
        read_plain false c (doubling q s ++ q ∷ rest) e refl
        ∙ ap (with_char c) (doubling-read s rest h))
  ]

escaped_backslash :
    (s : Text) → read_quoted 39 true (92 ∷ 92 ∷ s) ≡ with_char 92 (read_quoted 39 true s)
unfolding read_quoted
escaped_backslash s = refl

escaping-read :
    (s rest : Text)
    → StartsNot (same 39) rest
    → read_quoted 39 true (doubling 39 (doubling 92 s) ++ 39 ∷ rest) ≡ some (s, rest)
escaping-read [] rest h = read_end 39 true rest h
escaping-read (c ∷ s) rest h = elim (Bool-cases (c == 92)) [
  | inl e ↦
      rw (e, (==_iff c 92).0 e)
        (escaped_backslash (doubling 39 (doubling 92 s) ++ 39 ∷ rest)
          ∙ ap (with_char 92) (escaping-read s rest h))
  | inr e ↦ elim (Bool-cases (c == 39)) [
    | inl f ↦
        rw (e, f)
          (read_doubled 39 true (doubling 39 (doubling 92 s) ++ 39 ∷ rest)
            ∙ rw (escaping-read s rest h, (==_iff c 39).0 f) refl)
    | inr f ↦
        rw (e, f)
          (read_plain 39 true c (doubling 39 (doubling 92 s) ++ 39 ∷ rest) f e
            ∙ ap (with_char c) (escaping-read s rest h))
  ]
]

-- The server reads a quoted text at the start, and knows what is left.
abbrev pub ReadsAs : ℕ → Bool → Text → Text → Text → Type 0
ReadsAs q escapes statement text rest =
    (behind : Text) × (statement ≡ q ∷ behind) × (read_quoted q escapes behind ≡ some (text, rest))

-- A quoted name in a statement is read back as the name, with nothing of it left and nothing of the rest
-- taken, if no quote follows it.
pub quote_ident-read :
    (q : ℕ) (name rest : Text)
    → StartsNot (same q) rest
    → ReadsAs q false (quote_ident q name ++ rest) name rest
unfolding quote_ident
quote_ident-read q name rest h = (
  doubling q name ++ q ∷ rest,
  ap (λ (t : Text). q ∷ t) (append_assoc (doubling q name) (q ∷ []) rest),
  doubling-read q name rest h,
)

escape_sql_string-read :
    (s rest : Text) (escapes : Bool)
    → StartsNot (same 39) rest
    → read_quoted 39 escapes (escape_sql_string s escapes ++ 39 ∷ rest) ≡ some (s, rest)
unfolding escape_sql_string
escape_sql_string-read s rest true h = escaping-read s rest h
escape_sql_string-read s rest false h = doubling-read 39 s rest h

-- The literal of a string in a statement is read back as the string, with nothing of it left and nothing of
-- the rest taken, if no quote follows it: by a server that knows backslash escapes when they are asked for,
-- and by one that does not when they are not.
pub sql_literal-read :
    (s rest : Text) (escapes : Bool)
    → StartsNot (same 39) rest
    → ReadsAs 39 escapes (sql_literal (string s) escapes ++ rest) s rest
unfolding sql_literal
sql_literal-read s rest escapes h = (
  escape_sql_string s escapes ++ 39 ∷ rest,
  ap (λ (t : Text). 39 ∷ t) (append_assoc (escape_sql_string s escapes) (39 ∷ []) rest),
  escape_sql_string-read s rest escapes h,
)
