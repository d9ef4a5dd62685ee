-- ===== src/Guard/Leading.antt =====
-- The gate of dbcli/src/cli.rs and the keyword that leads a statement, behind blanks and comments.
use mathlib.Core.Path.{subst}
use mathlib.Core.List.{append_assoc, append-nil}
use hepta_dbcli.Prelude.{
  ℕ, ◌-◌, Bool, true, false, not, ◌&&◌, List, [], ◌∷◌, ◌++◌, ◌≡◌, refl, sym, ap, ◌∙◌, arith, ltb,
  if◌then◌else◌, inl, inr, Bool-cases,
}
use hepta_dbcli.Text.{
  Text, within, text_eq, one_of, is_space, is_word, drop_while, drop_end_while, cons_unless_trimmed,
  trim_start, trim_end, to_uppercase, upper_char,
}
use hepta_dbcli.Text.Laws.{
  AllOf, Starts, StartsNot, text_eq_iff, drop_while-eq_self, drop_end_while-append,
  take_until-append,
}
use hepta_dbcli.Guard.{
  StatementClass, data_change, call, ddl, privilege, ddl_keywords, privilege_keywords,
  data_change_keywords, data_change_lead_keywords, call_keywords, first_word, classify_upper, gate,
  upper_statement, classify_statement, write_gate, is_line_comment, is_block_comment,
}
use hepta_dbcli.Guard.Comments.{
  Skippable, nothing, blank, line, block, Bare, strip-Bare, strip-Skippable,
}

-- A word of ASCII letters, digits and underscores.
pub data IsWord : Text → Type 0 where
  one : (c : ℕ) → is_word c ≡ true → IsWord (c ∷ [])
  more : (c : ℕ) {w : Text} → is_word c ≡ true → IsWord w → IsWord (c ∷ w)

-- What ends it: the end of the text, or an ASCII blank.
abbrev pub Break : Text → Type 0
Break = Starts (λ c. is_space c && ltb c 128)

word_not_space : (c : ℕ) → is_word c ≡ true → is_space c ≡ false
unfolding is_word is_space
word_not_space c h = ground arith

word_upper :
    (wide : ℕ → Text) (c : ℕ)
    → is_word c ≡ true
    → (d : ℕ) × (upper_char wide c ≡ d ∷ []) × (is_word d ≡ true)
unfolding is_word
word_upper wide c h = ((if within b'a' b'z' c then c - 32 else c), ground arith, ground arith)

blank_upper :
    (wide : ℕ → Text) (c : ℕ) → (is_space c && ltb c 128) ≡ true → upper_char wide c ≡ c ∷ []
unfolding is_space
blank_upper wide c h = ground arith

not_word : (c : ℕ) → is_word c ≡ true → not (is_word c) ≡ false
not_word c h = rw h

IsWord-all : {w : Text} → IsWord w → AllOf (λ c. not (is_space c)) w
IsWord-all (one c h) = (rw (word_not_space c h), tt)
IsWord-all (more c h k) = (rw (word_not_space c h), IsWord-all k)

IsWord-starts :
    (p : ℕ → Bool) {w : Text} (t : Text)
    → ((c : ℕ) → is_word c ≡ true → p c ≡ false)
    → IsWord w
    → StartsNot p (w ++ t)
IsWord-starts p t f (one c h) = f c h
IsWord-starts p t f (more c h k) = f c h

-- Trimming an end that no character of a word matches stops at the word.
end_kept :
    (p : ℕ → Bool) {w : Text} (s t : Text)
    → ((c : ℕ) → is_word c ≡ true → p c ≡ false)
    → IsWord w
    → drop_end_while p (s ++ (w ++ t)) ≡ s ++ (w ++ drop_end_while p t)
end_kept p s t f (one c h) = drop_end_while-append p s t c (f c h)
end_kept p s t f (more c {w} h k) =
    ap (drop_end_while p) (sym (append_assoc s (c ∷ []) (w ++ t)))
    ∙ end_kept p (s ++ c ∷ []) t f k
    ∙ append_assoc s (c ∷ []) (w ++ drop_end_while p t)

blank_of : (c : ℕ) → (is_space c && ltb c 128) ≡ true → is_space c ≡ true
blank_of c h = ground arith

Break-cons :
    (c : ℕ) (s : Text) → (is_space c && ltb c 128) ≡ true → Break (cons_unless_trimmed is_space c s)
Break-cons c [] h = rw (blank_of c h) tt
Break-cons c (d ∷ s) h = h

Break-trim_end : (t : Text) → Break t → Break (trim_end t)
unfolding drop_end_while
Break-trim_end [] b = tt
Break-trim_end (c ∷ t) b = Break-cons c (trim_end t) b

no_line_comment : (c : ℕ) (s : Text) → is_word c ≡ true → is_line_comment (c ∷ s) ≡ false
unfolding is_word
no_line_comment c [] h = refl
no_line_comment c (d ∷ s) h = ground arith

no_block_comment : (c : ℕ) (s : Text) → is_word c ≡ true → is_block_comment (c ∷ s) ≡ false
unfolding is_word
no_block_comment c [] h = refl
no_block_comment c (d ∷ s) h = ground arith

pub IsWord-Bare : {w : Text} (t : Text) → IsWord w → Bare (w ++ t)
IsWord-Bare t (one c h) = record {
  no_blank = word_not_space c h;
  no_line = no_line_comment c t h;
  no_block = no_block_comment c t h;
}
IsWord-Bare t (more c {w} h k) = record {
  no_blank = word_not_space c h;
  no_line = no_line_comment c (w ++ t) h;
  no_block = no_block_comment c (w ++ t) h;
}

trim-Skippable :
    {p : Text} (s : Text)
    → StartsNot is_space s
    → Skippable p
    → (q : Text) × Skippable q × (trim_start (p ++ s) ≡ q ++ s)
unfolding drop_while is_space
trim-Skippable s h nothing = ([], nothing, drop_while-eq_self is_space s h)
trim-Skippable s h (blank c e k) = let (q, r, f) = trim-Skippable s h k in (q, r, rw e f)
trim-Skippable s h (line body e k) = (_, line body e k, refl)
trim-Skippable s h (block body e k) = (_, block body e k, refl)

module _ (wide : ℕ → Text) where
  upper-append :
      (s t : Text) → to_uppercase wide (s ++ t) ≡ to_uppercase wide s ++ to_uppercase wide t
  unfolding to_uppercase
  upper-append [] t = refl
  upper-append (c ∷ s) t =
      rw (upper-append s t)
        (sym (append_assoc (upper_char wide c) (to_uppercase wide s) (to_uppercase wide t)))

  upper-IsWord : {w : Text} → IsWord w → IsWord (to_uppercase wide w)
  unfolding to_uppercase
  upper-IsWord (one c h) = let (d, e, k) = word_upper wide c h in rw e (one d k)
  upper-IsWord (more c h r) =
      let (d, e, k) = word_upper wide c h in rw e (more d k (upper-IsWord r))

  upper-Break : (t : Text) → Break t → Starts is_space (to_uppercase wide t)
  unfolding to_uppercase
  upper-Break [] b = tt
  upper-Break (c ∷ t) b = rw (blank_upper wide c b) (blank_of c b)

  -- What the gate looks at: the statement without what stands in front of it, in upper case.
  upper_statement_lem :
      (p w t : Text)
      → Skippable p
      → IsWord w
      → Break t
      → upper_statement wide (p ++ (w ++ t)) ≡ to_uppercase wide w ++ to_uppercase wide (trim_end t)
  unfolding upper_statement
  upper_statement_lem p w t k h b =
      let (q, r, e) = trim-Skippable (w ++ t) (IsWord-Bare t h).no_blank k in
      rw (e, end_kept is_space q t word_not_space h)
        (rw (strip-Skippable (w ++ trim_end t) r, strip-Bare _ (IsWord-Bare (trim_end t) h))
          (upper-append w (trim_end t)))

abbrev stray : ℕ → Bool
stray c = not (is_word c)

trimmed_start : {w : Text} → IsWord w → drop_while stray w ≡ w
trimmed_start {w} h =
    drop_while-eq_self stray w (rw append-nil at (IsWord-starts stray {w = w} [] not_word h))

trimmed_end : {w : Text} → IsWord w → drop_end_while stray w ≡ w
unfolding drop_end_while
trimmed_end {w} h = rw append-nil at (end_kept stray [] [] not_word h)

-- The first word of such a text is the keyword.
first_word_lem : (w t : Text) → IsWord w → Starts is_space t → first_word (w ++ t) ≡ w
unfolding first_word
first_word_lem w t h b =
    rw (drop_while-eq_self is_space (w ++ t) (IsWord-starts is_space t word_not_space h))
      (rw (take_until-append is_space w t (IsWord-all h) b) (rw (trimmed_start h) (trimmed_end h)))

module _ (wide : ℕ → Text) where
  pub classify_lem :
      (p w t : Text)
      → Skippable p
      → IsWord w
      → Break t
      → classify_statement wide (p ++ (w ++ t))
        ≡ classify_upper
            (to_uppercase wide w)
            (to_uppercase wide w ++ to_uppercase wide (trim_end t))
  unfolding classify_statement
  classify_lem p w t k h b = rw (upper_statement_lem wide p w t k h b) (
      rw (
        first_word_lem (to_uppercase wide w) (to_uppercase wide (trim_end t)) (upper-IsWord wide h)
          (upper-Break wide (trim_end t) (Break-trim_end t b))))

-- The class that a keyword, in upper case, puts its statement in, whatever follows.
pub data Leads : Text → StatementClass → Type 0 where
  defines : {w : Text} → one_of w ddl_keywords ≡ true → Leads w ddl
  grants : {w : Text} → one_of w privilege_keywords ≡ true → Leads w privilege
  changes : {w : Text} → one_of w data_change_keywords ≡ true → Leads w data_change
  copies : {w : Text} → one_of w data_change_lead_keywords ≡ true → Leads w data_change
  calls : {w : Text} → one_of w call_keywords ≡ true → Leads w call

abbrev Each : (Text → Type 0) → List Text → Type 0
Each P [] = Unit {0}
Each P (k ∷ ks) = P k × Each P ks

one_of_cases :
    (P : Text → Type 0) (w : Text) (ks : List Text) → one_of w ks ≡ true → Each P ks → P w
unfolding one_of
one_of_cases P w [] h e = cc
one_of_cases P w (k ∷ ks) h (e, es) = elim (Bool-cases (text_eq k w)) [
  | inl same ↦ subst P ((text_eq_iff k w).0 same) e
  | inr differ ↦ one_of_cases P w ks (rw differ at h) es
]

module _ (u : Text) where
  abbrev Class : StatementClass → Text → Type 0
  Class k w = classify_upper w u ≡ k

  classify-Leads : {w : Text} {k : StatementClass} → Leads w k → classify_upper w u ≡ k
  unfolding classify_upper
  classify-Leads (defines {w} h) =
      one_of_cases (Class ddl) w ddl_keywords h (refl, (refl, (refl, (refl, (refl, tt)))))
  classify-Leads (grants {w} h) =
      one_of_cases (Class privilege) w privilege_keywords h (refl, (refl, tt))
  classify-Leads (changes {w} h) =
      one_of_cases (Class data_change) w data_change_keywords h
        (refl, (refl, (refl, (refl, (refl, (refl, (refl, (refl, tt))))))))
  classify-Leads (copies {w} h) =
      one_of_cases (Class data_change) w data_change_lead_keywords h (refl, (refl, tt))
  classify-Leads (calls {w} h) =
      one_of_cases (Class call) w call_keywords h (refl, (refl, (refl, (refl, (refl, (refl, tt))))))

-- A statement that a keyword of DDL, of privileges, of data changes or of calls leads, in any
-- mixture of cases, with any blanks and whole comments in front of it and a blank or nothing
-- behind the keyword, gets the gate of that class: DDL passes only with `allow_ddl`, data changes
-- and calls only with `allow_write`, and privileges never.
pub write_gate-leading :
    (wide : ℕ → Text) (p w t : Text) (k : StatementClass) (allow_write allow_ddl : Bool)
    → Skippable p
    → IsWord w
    → Break t
    → Leads (to_uppercase wide w) k
    → write_gate wide (p ++ (w ++ t)) allow_write allow_ddl ≡ gate k allow_write allow_ddl
unfolding write_gate
write_gate-leading wide p w t k aw ad s h b l =
    rw (classify_lem wide p w t s h b) (rw (classify-Leads _ l))
