-- ===== src/Backend/Quoting/BareLimit.antt =====
-- Quoted texts and `contains_bare_limit` of dbcli/src/backend/mod.rs.
use hepta_dbcli.Prelude.{
  eq_self, one_of_two, ℕ, ◌==◌, true, false, [], ◌∷◌, ◌++◌, Option, none, some, ◌≡◌, refl, sym,
  arith, ap, ◌∙◌, Bool, ◌&&◌, ◌||◌, Bool-cases, inl, inr, ==_iff,
}
use mathlib.Core.List.{append_assoc}
use hepta_dbcli.Text.{Text, text_eq, eq_ignore_ascii_case}
use hepta_dbcli.Text.Laws.{StartsNot}
use hepta_dbcli.Backend.Quoting.{
  doubling, quote_ident, in_code, in_quoted, opens_quoted, matches_limit, bare_limit, found_at,
  contains_bare_limit,
}
use hepta_dbcli.Backend.Quoting.ReadBack.{same}

module _ (q : ℕ) where
  quoted_doubled :
      (before : Option ℕ) (s : Text)
      → bare_limit (in_quoted q) before (q ∷ q ∷ s) ≡ bare_limit (in_quoted q) (some q) s
  unfolding bare_limit
  quoted_doubled before s = rw (bare_limit, eq_self q) refl

  quoted_plain :
      (before : Option ℕ) (c : ℕ) (s : Text)
      → (c == q) ≡ false
      → bare_limit (in_quoted q) before (c ∷ s) ≡ bare_limit (in_quoted q) (some c) s
  unfolding bare_limit found_at
  quoted_plain before c [] h = refl
  quoted_plain before c (d ∷ s) h = rw (bare_limit, h, h) refl

  quoted_end :
      (before : Option ℕ) (rest : Text)
      → StartsNot (same q) rest
      → bare_limit (in_quoted q) before (q ∷ rest) ≡ bare_limit in_code (some q) rest
  unfolding bare_limit found_at
  quoted_end before [] h = refl
  quoted_end before (d ∷ rest) h = rw (bare_limit, eq_self q, h, eq_self q) refl

  doubling-skipped :
      (before : Option ℕ) (s rest : Text)
      → StartsNot (same q) rest
      → bare_limit (in_quoted q) before (doubling q s ++ q ∷ rest)
        ≡ bare_limit in_code (some q) rest
  doubling-skipped before [] rest h = quoted_end before rest h
  doubling-skipped before (c ∷ s) rest h = elim (Bool-cases (c == q)) [
    | inl e ↦
        rw e (quoted_doubled before (doubling q s ++ q ∷ rest) ∙ doubling-skipped (some q) s rest h)
    | inr e ↦
        rw e
          (quoted_plain before c (doubling q s ++ q ∷ rest) e ∙ doubling-skipped (some c) s rest h)
  ]

opened_single :
    (before : Option ℕ) (s : Text)
    → bare_limit in_code before (39 ∷ s) ≡ bare_limit (in_quoted 39) (some 39) s
unfolding bare_limit matches_limit eq_ignore_ascii_case
opened_single before [] = refl
opened_single before (d ∷ s) = refl

opened_double :
    (before : Option ℕ) (s : Text)
    → bare_limit in_code before (34 ∷ s) ≡ bare_limit (in_quoted 34) (some 34) s
unfolding bare_limit matches_limit eq_ignore_ascii_case
opened_double before [] = refl
opened_double before (d ∷ s) = refl

opened :
    (q : ℕ) (before : Option ℕ) (s : Text)
    → opens_quoted q ≡ true
    → bare_limit in_code before (q ∷ s) ≡ bare_limit (in_quoted q) (some q) s
opened q before s h = elim (one_of_two (q == 39) (q == 34) h) [
  | inl e ↦ rw ((==_iff q 39).0 e) (opened_single before s)
  | inr e ↦ rw ((==_iff q 34).0 e) (opened_double before s)
]

-- A quoted text in code: the search goes on behind it.
quoted-skipped :
    (q : ℕ) (name rest : Text) (before : Option ℕ)
    → opens_quoted q ≡ true
    → StartsNot (same q) rest
    → bare_limit in_code before (quote_ident q name ++ rest) ≡ bare_limit in_code (some q) rest
unfolding quote_ident
quoted-skipped q name rest before h k =
    ap (bare_limit in_code before) (append_assoc (q ∷ doubling q name) (q ∷ []) rest)
    ∙ opened q before (doubling q name ++ q ∷ rest) h
    ∙ doubling-skipped q (some q) name rest k

-- A part of a statement at whose end the statement is in code, neither in quotes nor in a comment: quoted
-- texts, and characters that open no quoted text and with the one behind them no comment.
pub data Code : Text → Type 0 where
  nothing : Code []
  last : (c : ℕ) → opens_quoted c ≡ false → Code (c ∷ [])
  plain :
      (c d : ℕ) {s : Text}
      → opens_quoted c ≡ false
      → (c == b'-' && d == b'-' || c == b'/' && d == b'*') ≡ false
      → Code (d ∷ s)
      → Code (c ∷ d ∷ s)
  quoted :
      (q : ℕ) (name : Text) (d : ℕ) {s : Text}
      → opens_quoted q ≡ true
      → same q d ≡ false
      → Code (d ∷ s)
      → Code (quote_ident q name ++ d ∷ s)

-- A keyword does not reach into quotes.
matches_limit-single :
    (before : Option ℕ) (x a b : Text)
    → matches_limit before (x ++ 39 ∷ a) ≡ matches_limit before (x ++ 39 ∷ b)
unfolding matches_limit eq_ignore_ascii_case text_eq
matches_limit-single before [] a b = refl
matches_limit-single before (c ∷ []) a b = ground arith
matches_limit-single before (c ∷ d ∷ []) a b = ground arith
matches_limit-single before (c ∷ d ∷ e ∷ []) a b = ground arith
matches_limit-single before (c ∷ d ∷ e ∷ f ∷ []) a b = ground arith
matches_limit-single before (c ∷ d ∷ e ∷ f ∷ g ∷ []) a b = refl
matches_limit-single before (c ∷ d ∷ e ∷ f ∷ g ∷ h ∷ x) a b = refl

matches_limit-double :
    (before : Option ℕ) (x a b : Text)
    → matches_limit before (x ++ 34 ∷ a) ≡ matches_limit before (x ++ 34 ∷ b)
unfolding matches_limit eq_ignore_ascii_case text_eq
matches_limit-double before [] a b = refl
matches_limit-double before (c ∷ []) a b = ground arith
matches_limit-double before (c ∷ d ∷ []) a b = ground arith
matches_limit-double before (c ∷ d ∷ e ∷ []) a b = ground arith
matches_limit-double before (c ∷ d ∷ e ∷ f ∷ []) a b = ground arith
matches_limit-double before (c ∷ d ∷ e ∷ f ∷ g ∷ []) a b = refl
matches_limit-double before (c ∷ d ∷ e ∷ f ∷ g ∷ h ∷ x) a b = refl

module _ (q : ℕ) (opens : opens_quoted q ≡ true) (a b : Text)
    (alike : (before : Option ℕ)
      → bare_limit in_code before (q ∷ a) ≡ bare_limit in_code before (q ∷ b)) where
  matches_limit-quoted :
      (before : Option ℕ) (x : Text)
      → matches_limit before (x ++ q ∷ a) ≡ matches_limit before (x ++ q ∷ b)
  matches_limit-quoted before x = elim (one_of_two (q == 39) (q == 34) opens) [
    | inl e ↦ rw ((==_iff q 39).0 e) (matches_limit-single before x a b)
    | inr e ↦ rw ((==_iff q 34).0 e) (matches_limit-double before x a b)
  ]

  no_comment : (c : ℕ) → (c == 45 && q == 45 || c == 47 && q == 42) ≡ false
  no_comment c = elim (one_of_two (q == 39) (q == 34) opens) [
    | inl e ↦ rw ((==_iff q 39).0 e) (both (c == 45) (c == 47))
    | inr e ↦ rw ((==_iff q 34).0 e) (both (c == 45) (c == 47))
  ]
    where
      both : (x y : Bool) → (x && false || y && false) ≡ false
      both true true = refl
      both true false = refl
      both false true = refl
      both false false = refl

  scanned :
      (x : Text)
      → Code x
      → (before : Option ℕ)
      → bare_limit in_code before (x ++ q ∷ a) ≡ bare_limit in_code before (x ++ q ∷ b)
  unfolding bare_limit found_at
  scanned _ nothing before = alike before
  scanned _ (last c h) before =
      rw (bare_limit, no_comment c, h)
        (λ i. matches_limit-quoted before (c ∷ []) i || alike (some c) i)
  scanned _ (plain c d {s = s} h k r) before =
      rw (bare_limit, k, h)
        (λ i. matches_limit-quoted before (c ∷ d ∷ s) i || scanned (d ∷ s) r (some c) i)
  scanned _ (quoted p name d {s = s} h k r) before =
      ap (bare_limit in_code before) (append_assoc (quote_ident p name) (d ∷ s) (q ∷ a))
      ∙ quoted-skipped p name (d ∷ s ++ q ∷ a) before h k
      ∙ scanned (d ∷ s) r (some p)
      ∙ sym (quoted-skipped p name (d ∷ s ++ q ∷ b) before h k)
      ∙ sym (ap (bare_limit in_code before) (append_assoc (quote_ident p name) (d ∷ s) (q ∷ b)))

-- The search for a bare `LIMIT` does not depend on what stands between single or double quotes, wherever in
-- the code of a statement the quoted text is, if no such quote stands right behind it. In front of it there
-- may be other quoted texts, but no comment.
pub contains_bare_limit-quoted :
    (q : ℕ) (x name other rest : Text)
    → opens_quoted q ≡ true
    → StartsNot (same q) rest
    → Code x
    → contains_bare_limit (x ++ (quote_ident q name ++ rest))
      ≡ contains_bare_limit (x ++ (quote_ident q other ++ rest))
unfolding contains_bare_limit quote_ident
contains_bare_limit-quoted q x name other rest h k c =
    scanned q h (doubling q name ++ q ∷ [] ++ rest) (doubling q other ++ q ∷ [] ++ rest)
      (λ before.
        quoted-skipped q name rest before h k ∙ sym (quoted-skipped q other rest before h k))
      x c none
