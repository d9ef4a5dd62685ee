-- ===== src/Text/Laws.antt =====
-- Laws of the text functions.
use hepta_dbcli.Prelude.{
  ℕ, Bool, true, false, not, [], ◌∷◌, ◌++◌, ◌≡◌, ◌↔◌, inl, inr, refl, ap, arith, Bool-cases,
}
use hepta_dbcli.Text.{Text, text_eq, drop_while, drop_end_while, cons_unless_trimmed, take_until}

-- Every character satisfies the test.
abbrev pub AllOf : (ℕ → Bool) → Text → Type 0
AllOf p [] = Unit {0}
AllOf p (c ∷ s) = (p c ≡ true) × AllOf p s

-- The text is empty or its first character satisfies the test.
abbrev pub Starts : (ℕ → Bool) → Text → Type 0
Starts p [] = Unit {0}
Starts p (c ∷ s) = p c ≡ true

abbrev pub StartsNot : (ℕ → Bool) → Text → Type 0
StartsNot p [] = Unit {0}
StartsNot p (c ∷ s) = p c ≡ false

pub text_eq_iff : (s t : Text) → (text_eq s t ≡ true) ↔ (s ≡ t)
unfolding text_eq
text_eq_iff [] [] = ground arith
text_eq_iff [] (b ∷ t) = ground arith
text_eq_iff (a ∷ s) [] = ground arith
text_eq_iff (a ∷ s) (b ∷ t) = ground (arith, text_eq_iff s t)

module _ (p : ℕ → Bool) where
  pub drop_while-StartsNot : (s : Text) → StartsNot p (drop_while p s)
  unfolding drop_while
  drop_while-StartsNot [] = tt
  drop_while-StartsNot (c ∷ s) = elim (Bool-cases (p c)) [
    | inl y ↦ rw y (drop_while-StartsNot s)
    | inr n ↦ rw n n
  ]

  pub drop_while-eq_self : (s : Text) → StartsNot p s → drop_while p s ≡ s
  unfolding drop_while
  drop_while-eq_self [] h = refl
  drop_while-eq_self (c ∷ s) h = rw h

  pub drop_while-append : (s t : Text) → AllOf p s → drop_while p (s ++ t) ≡ drop_while p t
  unfolding drop_while
  drop_while-append [] t h = refl
  drop_while-append (c ∷ s) t h = rw (h.0) (drop_while-append s t h.1)

  pub take_until-append :
      (s t : Text) → AllOf (λ c. not (p c)) s → Starts p t → take_until p (s ++ t) ≡ s
  unfolding take_until
  take_until-append [] [] h k = refl
  take_until-append [] (d ∷ t) h k = rw k
  take_until-append (c ∷ s) t h k =
      rw (not_true (p c) h.0) (ap (◌∷◌ c) (take_until-append s t h.1 k))
    where
      not_true : (b : Bool) → not b ≡ true → b ≡ false
      not_true true e = cc
      not_true false e = refl

  cons_kept : (c : ℕ) (s : Text) → p c ≡ false → cons_unless_trimmed p c s ≡ c ∷ s
  cons_kept c [] h = rw h
  cons_kept c (d ∷ s) h = refl

  cons_kept_before :
      (d : ℕ) (s : Text) (c : ℕ) (t : Text)
      → cons_unless_trimmed p d (s ++ c ∷ t) ≡ d ∷ (s ++ c ∷ t)
  cons_kept_before d [] c t = refl
  cons_kept_before d (e ∷ s) c t = refl

  -- What stands up to a character that does not match is not trimmed from the end.
  pub drop_end_while-append :
      (s t : Text) (c : ℕ)
      → p c ≡ false
      → drop_end_while p (s ++ c ∷ t) ≡ s ++ c ∷ drop_end_while p t
  unfolding drop_end_while
  drop_end_while-append [] t c h = cons_kept c (drop_end_while p t) h
  drop_end_while-append (d ∷ s) t c h =
      rw (drop_end_while-append s t c h) (cons_kept_before d s c (drop_end_while p t))

  -- Trimming the end keeps how a text starts, if it starts with a match.
  pub drop_end_while-Starts : (s : Text) → Starts p s → Starts p (drop_end_while p s)
  unfolding drop_end_while
  drop_end_while-Starts [] h = tt
  drop_end_while-Starts (c ∷ s) h = starts_cons c (drop_end_while p s) h
    where
      starts_cons : (c : ℕ) (s : Text) → p c ≡ true → Starts p (cons_unless_trimmed p c s)
      starts_cons c [] h = rw h tt
      starts_cons c (d ∷ s) h = h
