-- ===== src/Guard/Nested.antt =====
-- A block comment in front of a statement, and the gate of dbcli/src/cli.rs.
use hepta_dbcli.Prelude.{
  ℕ, zero, suc, ◌==◌, Bool, true, false, ◌&&◌, ◌||◌, [], ◌∷◌, ◌++◌, some, ◌≡◌, refl, sym, ap, ◌∙◌,
  inl, inr, Bool-cases,
}
use mathlib.Core.List.{append_assoc, append-nil}
use hepta_dbcli.Text.{
  Text, is_space, drop_while, drop_end_while, cons_unless_trimmed, trim_start, trim_end, trim,
}
use hepta_dbcli.Text.Laws.{drop_while-StartsNot, drop_while-eq_self, drop_end_while-append}
use hepta_dbcli.Guard.{
  skip_block, strip_leading_comments, upper_statement, classify_statement, write_gate,
}
use hepta_dbcli.Guard.Comments.{nothing, block, continue, step, strip-step, strip-Skippable}

-- The character and the one behind it neither open a comment nor close one.
abbrev pub Apart : ℕ → Text → Type 0
Apart a [] = Unit {0}
Apart a (b ∷ s) = (a == b'/' && b == b'*') || (a == b'*' && b == b'/') ≡ false

-- What is behind the opening of comments, up to the end of the outermost: comments nest.
pub data Nested : ℕ → Text → Type 0 where
  closed : Nested zero []
  opens : {d : ℕ} {s : Text} → Nested (suc (suc d)) s → Nested (suc d) (b'/' ∷ b'*' ∷ s)
  closes : {d : ℕ} {s : Text} → Nested d s → Nested (suc d) (b'*' ∷ b'/' ∷ s)
  other : (a : ℕ) {d : ℕ} {s : Text} → Apart a s → Nested (suc d) s → Nested (suc d) (a ∷ s)

neither : (x y : Bool) → (x || y) ≡ false → (x ≡ false) × (y ≡ false)
neither true y h = cc
neither false y h = (refl, h)

skip_block-Nested : {d : ℕ} {s : Text} → Nested d s → skip_block d s ≡ some []
unfolding skip_block
skip_block-Nested closed = refl
skip_block-Nested (opens n) = skip_block-Nested n
skip_block-Nested (closes n) = skip_block-Nested n
skip_block-Nested (other a {s = []} h n) = elim n [ ]
skip_block-Nested (other a {s = b ∷ s} h n) =
    let t = neither (a == b'/' && b == b'*') (a == b'*' && b == b'/') h in
    rw (skip_block, t.0, t.1) (skip_block-Nested n)

ends_slash : {d : ℕ} {s : Text} → Nested (suc d) s → (front : Text) × (s ≡ front ++ b'/' ∷ [])
ends_slash (opens n) =
    let r = ends_slash n in (b'/' ∷ b'*' ∷ r.0, ap (λ (t : Text). b'/' ∷ b'*' ∷ t) r.1)
ends_slash (closes {d = zero} closed) = (b'*' ∷ [], refl)
ends_slash (closes {d = suc d} n) =
    let r = ends_slash n in (b'*' ∷ b'/' ∷ r.0, ap (λ (t : Text). b'*' ∷ b'/' ∷ t) r.1)
ends_slash (other a h n) = let r = ends_slash n in (a ∷ r.0, ap (λ (t : Text). a ∷ t) r.1)

cons_unless_trimmed-blank :
    (c : ℕ) (t : Text)
    → is_space c ≡ true
    → trim_start t ≡ trim_start (cons_unless_trimmed is_space c t)
unfolding drop_while
cons_unless_trimmed-blank c [] h = rw h refl
cons_unless_trimmed-blank c (d ∷ t) h = rw h refl

cons_unless_trimmed-kept :
    (c : ℕ) (t : Text)
    → is_space c ≡ false
    → cons_unless_trimmed is_space c t ≡ trim_start (cons_unless_trimmed is_space c t)
unfolding drop_while
cons_unless_trimmed-kept c [] h = rw (h, h) refl
cons_unless_trimmed-kept c (d ∷ t) h = rw h refl

trim-swapped : (s : Text) → trim s ≡ trim_start (trim_end s)
unfolding drop_while drop_end_while
trim-swapped [] = refl
trim-swapped (c ∷ s) = elim (Bool-cases (is_space c)) [
  | inl e ↦ rw (drop_while, e) (trim-swapped s ∙ cons_unless_trimmed-blank c (trim_end s) e)
  | inr e ↦ rw (drop_while, e) (cons_unless_trimmed-kept c (trim_end s) e)
]

strip-trim_start : (s : Text) → strip_leading_comments (trim_start s) ≡ strip_leading_comments s
strip-trim_start s =
    strip-step (trim_start s)
    ∙ ap (λ (t : Text). continue strip_leading_comments (step t))
        (drop_while-eq_self is_space (trim_start s) (drop_while-StartsNot is_space s))
    ∙ sym (strip-step s)

slash_is_none : is_space b'/' ≡ false
unfolding is_space
slash_is_none = refl

module _ (body s : Text) (n : Nested 1 body) where
  trim_comment : trim (b'/' ∷ b'*' ∷ (body ++ s)) ≡ b'/' ∷ b'*' ∷ (body ++ trim_end s)
  trim_comment =
      ap trim_end (drop_while-eq_self is_space (b'/' ∷ b'*' ∷ (body ++ s)) slash_is_none)
      ∙ (λ i. trim_end (b'/' ∷ b'*' ∷ (r.1 i ++ s)))
      ∙ ap (λ (t : Text). trim_end (b'/' ∷ b'*' ∷ t)) (append_assoc r.0 (b'/' ∷ []) s)
      ∙ drop_end_while-append is_space (b'/' ∷ b'*' ∷ r.0) s b'/' slash_is_none
      ∙ ap (λ (t : Text). b'/' ∷ b'*' ∷ t) (sym (append_assoc r.0 (b'/' ∷ []) (trim_end s)))
      ∙ (λ i. b'/' ∷ b'*' ∷ (sym r.1 i ++ trim_end s))
    where
      r : (front : Text) × (body ≡ front ++ b'/' ∷ [])
      r = ends_slash n

  strip_comment :
      strip_leading_comments (trim (b'/' ∷ b'*' ∷ (body ++ s))) ≡ strip_leading_comments (trim s)
  strip_comment =
      ap strip_leading_comments trim_comment
      ∙ ap (λ (t : Text). strip_leading_comments (b'/' ∷ b'*' ∷ (t ++ trim_end s)))
          (sym (append-nil body))
      ∙ strip-Skippable (trim_end s) (block body (skip_block-Nested n) nothing)
      ∙ sym (strip-trim_start (trim_end s))
      ∙ ap strip_leading_comments (sym (trim-swapped s))

-- A block comment in front of a text, whatever stands in it and with the comments that nest in it, does not
-- count: the gate gives what it gives for the text behind the comment.
pub write_gate-comment :
    (wide : ℕ → Text) (body s : Text) (allow_write allow_ddl : Bool)
    → Nested 1 body
    → write_gate wide (b'/' ∷ b'*' ∷ (body ++ s)) allow_write allow_ddl
      ≡ write_gate wide s allow_write allow_ddl
unfolding write_gate classify_statement upper_statement
write_gate-comment wide body s aw ad n = rw (strip_comment body s n) refl
