-- ===== src/Expr/Lex/Total.antt =====
-- The fuel of the lexer of dbcli/src/synth/expr.rs.
use hepta_dbcli.Prelude.{
  ℕ, zero, suc, ◌≤◌, ◌==◌, Bool, true, ◌&&◌, [], ◌∷◌, Option, none, some, length, ◌≡◌, arith,
  if-cases,
}
use hepta_dbcli.Decimals.{DecimalOps}
use hepta_dbcli.Text.{Text, is_word, drop_while}
use hepta_dbcli.Expr.{Result, Returns, Returns->>=, Token}
use hepta_dbcli.Expr.Lex.{
  digits_of, fraction, letter, digit, not_quote, Round, lex_round, lex_on, lex, quoted, numeral,
  word, paired, ordering, other_char, by_punctuation, ascii_space, read_number, close_quote,
}

length-drop_while : (p : ℕ → Bool) (s : Text) → length (drop_while p s) ≤ length s
unfolding drop_while
length-drop_while p [] = omega arith
length-drop_while p (c ∷ s) = ground (arith, length-drop_while p s)

drop_while-first :
    (p : ℕ → Bool) (c : ℕ) (s : Text) → p c ≡ true → length (drop_while p (c ∷ s)) ≤ length s
unfolding drop_while
drop_while-first p c s e = rw e (length-drop_while p s)

length-fraction : (w s : Text) → length (fraction w s).1 ≤ length s
unfolding fraction digits_of
length-fraction w [] = omega arith
length-fraction w (p ∷ []) = omega arith
length-fraction w (p ∷ d ∷ s) =
    if-cases (λ (r : Text × Text). length r.1 ≤ suc (suc (length s))) (p == b'.' && digit d)
      (λ _. omega (arith, length-drop_while digit (d ∷ s))) (λ _. omega arith)

module _ (ops : DecimalOps) where
  abbrev Shortens : Text → Result (Round ops) → Type 0
  Shortens s = Returns (λ r. length r.2 ≤ length s)

  close_quote-Shortens :
      (p : ℕ) (body s t : Text) → length t ≤ length s → Shortens s (close_quote ops p body t)
  close_quote-Shortens p body s [] h = tt
  close_quote-Shortens p body s (q ∷ rest) h = omega arith

  quoted-Shortens : (p : ℕ) (s : Text) → Shortens s (quoted ops p s)
  unfolding quoted
  quoted-Shortens p s = close_quote-Shortens p _ s _ (length-drop_while not_quote s)

  read_number-Shortens :
      (p : ℕ) (text s t : Text) (v : Option ops.Number)
      → length t ≤ length s
      → Shortens s (read_number ops p text t v)
  read_number-Shortens p text s t none h = tt
  read_number-Shortens p text s t (some v) h = h

  numeral-Shortens : (p c : ℕ) (s : Text) → digit c ≡ true → Shortens s (numeral ops p (c ∷ s))
  unfolding numeral
  numeral-Shortens p c s e = read_number-Shortens p _ s _ _ (
      omega (
        arith,
        length-fraction (digits_of (c ∷ s)).0 (digits_of (c ∷ s)).1,
        drop_while-first digit c s e,
      ))

  word-Shortens : (p c : ℕ) (s : Text) → letter c ≡ true → Shortens s (word ops p (c ∷ s))
  unfolding word is_word
  word-Shortens p c s e = drop_while-first is_word c s (ground arith)

  paired-Shortens :
      (a : ℕ) (t : Token ops.Number) (m : Text) (p : ℕ) (s : Text)
      → Shortens s (paired ops a t m p s)
  unfolding paired
  paired-Shortens a t m p [] = tt
  paired-Shortens a t m p (c ∷ s) =
      if-cases (Shortens (c ∷ s)) (c == a) (λ _. omega arith) (λ _. tt)

  ordering-Shortens :
      (t u : Token ops.Number) (p : ℕ) (s : Text) → Shortens s (ordering ops t u p s)
  unfolding ordering
  ordering-Shortens t u p [] = omega arith
  ordering-Shortens t u p (c ∷ s) =
      if-cases (Shortens (c ∷ s)) (c == b'=') (λ _. omega arith) (λ _. omega arith)

  other_char-Shortens : (p c : ℕ) (s : Text) → Shortens s (other_char ops p c s)
  unfolding other_char
  other_char-Shortens p c s =
      if-cases (Shortens s) (c == 39) (λ _. quoted-Shortens p s)
        (λ _. if-cases (Shortens s) (digit c) (numeral-Shortens p c s) (λ _.
          if-cases (Shortens s) (letter c) (word-Shortens p c s) (λ _.
            if-cases (Shortens s) (c == b'=') (λ _. paired-Shortens _ _ _ p s)
              (λ _.
                if-cases (Shortens s) (c == b'!') (λ _. paired-Shortens _ _ _ p s)
                  (λ _.
                    if-cases (Shortens s) (c == b'<') (λ _. ordering-Shortens _ _ p s)
                      (λ _.
                        if-cases (Shortens s) (c == b'>') (λ _. ordering-Shortens _ _ p s)
                          (λ _.
                            if-cases (Shortens s) (c == b'&') (λ _. paired-Shortens _ _ _ p s)
                              (λ _.
                                if-cases (Shortens s) (c == b'|') (λ _. paired-Shortens _ _ _ p s)
                                  (λ _. tt)))))))))

  punctuated-Shortens :
      (p c : ℕ) (s : Text) (t : Option (Token ops.Number)) → Shortens s (by_punctuation ops p c s t)
  unfolding by_punctuation
  punctuated-Shortens p c s none = other_char-Shortens p c s
  punctuated-Shortens p c s (some t) = omega arith

  lex_round-Shortens : (p c : ℕ) (s : Text) → Shortens s (lex_round ops p c s)
  unfolding lex_round
  lex_round-Shortens p c s =
      if-cases (Shortens s) (ascii_space c) (λ _. omega arith) (λ _. punctuated-Shortens p c s _)

  lex_on-Returns :
      (fuel p : ℕ) (s : Text) → length s ≤ fuel → Returns (λ _. Unit {0}) (lex_on ops fuel p s)
  unfolding lex_on
  lex_on-Returns zero p [] h = tt
  lex_on-Returns (suc fuel) p [] h = tt
  lex_on-Returns zero p (c ∷ s) h = absurd (omega arith)
  lex_on-Returns (suc fuel) p (c ∷ s) h =
      Returns->>= _ _ (lex_round ops p c s) _ (lex_round-Shortens p c s) λ r e shorter.
        Returns->>= _ _ (lex_on ops fuel r.1 r.2) _ (lex_on-Returns fuel r.1 r.2 (omega arith))
          λ ts _ _. tt

  -- The lexer ends on every text, with its tokens or an error.
  pub lex-Returns : (s : Text) → Returns (λ _. Unit {0}) (lex ops s)
  unfolding lex
  lex-Returns s = lex_on-Returns (length s) 0 s (omega arith)
