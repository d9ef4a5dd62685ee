-- ===== src/Guard/Comments.antt =====
-- The fuel of `strip_leading_comments` of dbcli/src/cli.rs, and what it strips.
use mathlib.Core.List.{append_assoc}
use hepta_dbcli.Prelude.{
  ℕ, zero, suc, ◌≤◌, ◌<◌, Bool, true, false, not, ◌&&◌, [], ◌∷◌, ◌++◌, Option, none, some, ◌≡◌,
  refl, sym, ap, ◌∙◌, arith, ◌⊎◌, inl, inr, ◌==◌, length,
}
use hepta_dbcli.Text.{Text, is_space, drop_while, trim_start}
use hepta_dbcli.Text.Laws.{AllOf, StartsNot, drop_while-eq_self}
use hepta_dbcli.Guard.{
  skip_block, after_line, is_line_comment, is_block_comment, behind, strip_within,
  strip_leading_comments,
}

skip_block-length : (d : ℕ) (s r : Text) → skip_block d s ≡ some r → length r ≤ length s
unfolding skip_block
skip_block-length zero s r e = ground arith
skip_block-length (suc d) [] r e = cc
skip_block-length (suc d) (a ∷ []) r e = cc
skip_block-length (suc d) (a ∷ b ∷ s) r e = ground (
  arith,
  skip_block-length (suc (suc d)) s r,
  skip_block-length d s r,
  skip_block-length (suc d) (b ∷ s) r,
)

after_line-length : (s r : Text) → after_line s ≡ some r → length r < length s
unfolding after_line
after_line-length [] r e = cc
after_line-length (c ∷ s) r e = ground (arith, after_line-length s r)

drop_while-length : (p : ℕ → Bool) (s : Text) → length (drop_while p s) ≤ length s
unfolding drop_while
drop_while-length p [] = omega arith
drop_while-length p (c ∷ s) = ground (arith, drop_while-length p s)

-- What one call leaves to the next, or what it returns.
abbrev pub Next : Type 0
Next = Text ⊎ Text

-- `inl`: the comment in front is gone and the rest is stripped further; `inr`: the result.
pub step : Text → Next
step trimmed = elim (is_line_comment trimmed) [
  | true ↦ elim (after_line trimmed) [ none ↦ inr [] | some rest ↦ inl rest ]
  | false ↦ elim (is_block_comment trimmed) [
    | true ↦ elim (skip_block 1 (behind trimmed)) [ none ↦ inr [] | some rest ↦ inl rest ]
    | false ↦ inr trimmed
  ]
]

abbrev pub continue : (Text → Text) → Next → Text
continue again (inl rest) = again rest
continue again (inr out) = out

strip_within-step :
    (f : ℕ) (s : Text) → strip_within (suc f) s ≡ continue (strip_within f) (step (trim_start s))
unfolding strip_within step
strip_within-step f s = ground arith

step-length : (s r : Text) → step s ≡ inl r → length r < length s
unfolding step
step-length [] r e = cc
step-length (a ∷ []) r e = cc
step-length (a ∷ b ∷ s) r e =
    ground (arith, after_line-length (a ∷ b ∷ s) r, skip_block-length 1 s r)

Next-cases : (n : Next) → ((r : Text) × (n ≡ inl r)) ⊎ ((r : Text) × (n ≡ inr r))
Next-cases (inl r) = inl (r, refl)
Next-cases (inr r) = inr (r, refl)

continue_same :
    (f g : ℕ) (s : Text)
    → ((r : Text) → length r ≤ f → length r ≤ g → strip_within f r ≡ strip_within g r)
    → length s ≤ suc f
    → length s ≤ suc g
    → (n : Next) → step (trim_start s) ≡ n
    → continue (strip_within f) n ≡ continue (strip_within g) n
continue_same f g s again h k (inl r) e =
    let shorter = step-length (trim_start s) r e in
    let trimmed = drop_while-length is_space s in again r (omega arith) (omega arith)
continue_same f g s again h k (inr r) e = refl

strip_within_fuel :
    (f g : ℕ) (s : Text) → length s ≤ f → length s ≤ g → strip_within f s ≡ strip_within g s
unfolding strip_within drop_while
strip_within_fuel zero zero s h k = refl
strip_within_fuel zero (suc g) [] h k = refl
strip_within_fuel zero (suc g) (c ∷ s) h k = absurd (omega arith)
strip_within_fuel (suc f) zero [] h k = refl
strip_within_fuel (suc f) zero (c ∷ s) h k = absurd (omega arith)
strip_within_fuel (suc f) (suc g) s h k =
    strip_within-step f s
    ∙ continue_same f g s (strip_within_fuel f g) h k (step (trim_start s)) refl
    ∙ sym (strip_within-step g s)

strip-eq : (f : ℕ) (s : Text) → length s ≤ f → strip_leading_comments s ≡ strip_within f s
unfolding strip_leading_comments
strip-eq f s h = strip_within_fuel (length s) f s (omega arith) h

strip_rest :
    (s : Text) (n : Next)
    → step (trim_start s) ≡ n
    → continue (strip_within (length s)) n ≡ continue strip_leading_comments n
strip_rest s (inl r) e =
    let shorter = step-length (trim_start s) r e in
    let trimmed = drop_while-length is_space s in sym (strip-eq (length s) r (omega arith))
strip_rest s (inr r) e = refl

-- The recursion of the source, with no fuel.
pub strip-step :
    (s : Text) → strip_leading_comments s ≡ continue strip_leading_comments (step (trim_start s))
strip-step s =
    strip-eq (suc (length s)) s (omega arith)
    ∙ strip_within-step (length s) s
    ∙ strip_rest s (step (trim_start s)) refl

branch_map :
    (p q : Bool) (x y z x' y' z' : Option Text) {r r' : Text}
    → (x ≡ some r → x' ≡ some r')
    → (y ≡ some r → y' ≡ some r')
    → (z ≡ some r → z' ≡ some r')
    → (elim p [ true ↦ x | false ↦ elim q [ true ↦ y | false ↦ z ] ]) ≡ some r
    → (elim p [ true ↦ x' | false ↦ elim q [ true ↦ y' | false ↦ z' ] ]) ≡ some r'
branch_map true q x y z x' y' z' f g h = f
branch_map false true x y z x' y' z' f g h = g
branch_map false false x y z x' y' z' f g h = h

skip_block-append :
    (d : ℕ) (s t r : Text) → skip_block d s ≡ some r → skip_block d (s ++ t) ≡ some (r ++ t)
unfolding skip_block
skip_block-append zero s t r = λ e. cc
skip_block-append (suc d) [] t r = λ e. cc
skip_block-append (suc d) (a ∷ []) t r = λ e. cc
skip_block-append (suc d) (a ∷ b ∷ s) t r =
    branch_map (a == b'/' && b == b'*') (a == b'*' && b == b'/') _ _ _ _ _ _
      (skip_block-append (suc (suc d)) s t r) (skip_block-append d s t r)
      (skip_block-append (suc d) (b ∷ s) t r)

after_line-append :
    (body t : Text) → AllOf (λ c. not (c == b'\n')) body → after_line (body ++ b'\n' ∷ t) ≡ some t
unfolding after_line
after_line-append [] t h = refl
after_line-append (c ∷ s) t (h, k) = ground (arith, after_line-append s t k)

-- Blanks and whole comments: what a statement may have in front of it.
pub data Skippable : Text → Type 0 where
  nothing : Skippable []
  blank : (c : ℕ) {s : Text} → is_space c ≡ true → Skippable s → Skippable (c ∷ s)
  line :
      (body : Text) {s : Text}
      → AllOf (λ c. not (c == b'\n')) body
      → Skippable s
      → Skippable (b'-' ∷ b'-' ∷ (body ++ b'\n' ∷ s))
  block :
      (body : Text) {s : Text}
      → skip_block 1 body ≡ some []
      → Skippable s
      → Skippable (b'/' ∷ b'*' ∷ (body ++ s))

trim_blank : (c : ℕ) (s : Text) → is_space c ≡ true → trim_start (c ∷ s) ≡ trim_start s
unfolding drop_while
trim_blank c s h = rw h

-- A statement itself: no blank and no comment in front.
pub record Bare (s : Text) : Type 0 where
  pub no_blank : StartsNot is_space s
  pub no_line : is_line_comment s ≡ false
  pub no_block : is_block_comment s ≡ false

step-Bare : (s : Text) → Bare s → continue strip_leading_comments (step s) ≡ s
unfolding step
step-Bare s b = rw (b.no_line, b.no_block, step)

step_line :
    (body t : Text)
    → AllOf (λ c. not (c == b'\n')) body
    → step (b'-' ∷ b'-' ∷ (body ++ b'\n' ∷ t)) ≡ inl t
unfolding step after_line
step_line body t h = rw (after_line-append body t h, step)

step_block :
    (body t : Text) → skip_block 1 body ≡ some [] → step (b'/' ∷ b'*' ∷ (body ++ t)) ≡ inl t
unfolding step
step_block body t h = rw (skip_block-append 1 body t [] h, step)

pub strip-Bare : (s : Text) → Bare s → strip_leading_comments s ≡ s
strip-Bare s b = strip-step s ∙ rw (drop_while-eq_self is_space s b.no_blank) (step-Bare s b)

not_space_dash : is_space b'-' ≡ false
unfolding is_space
not_space_dash = refl

not_space_slash : is_space b'/' ≡ false
unfolding is_space
not_space_slash = refl

strip_blank :
    (c : ℕ) (s : Text)
    → is_space c ≡ true
    → strip_leading_comments (c ∷ s) ≡ strip_leading_comments s
strip_blank c s h =
    strip-step (c ∷ s)
    ∙ ap (λ (t : Text). continue strip_leading_comments (step t)) (trim_blank c s h)
    ∙ sym (strip-step s)

-- Stripping takes all of it away and nothing else.
pub strip-Skippable :
    {p : Text} (s : Text) → Skippable p → strip_leading_comments (p ++ s) ≡ strip_leading_comments s
strip-Skippable s nothing = refl
strip-Skippable s (blank c {s = p} h k) = strip_blank c (p ++ s) h ∙ strip-Skippable s k
strip-Skippable s (line body {s = p} h k) = rw (append_assoc body (b'\n' ∷ p) s) (
    strip-step _
    ∙ rw (drop_while-eq_self is_space (b'-' ∷ b'-' ∷ (body ++ b'\n' ∷ (p ++ s))) not_space_dash)
        (rw (step_line body (p ++ s) h) (strip-Skippable s k)))
strip-Skippable s (block body {s = p} h k) = rw (append_assoc body p s) (
    strip-step _
    ∙ rw (drop_while-eq_self is_space (b'/' ∷ b'*' ∷ (body ++ (p ++ s))) not_space_slash)
        (rw (step_block body (p ++ s) h) (strip-Skippable s k)))
