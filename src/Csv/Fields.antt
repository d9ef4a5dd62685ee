-- ===== src/Csv/Fields.antt =====
-- One field as `csv_field` of dbcli/src/synth/export.rs writes it and `read_csv` of tabular.rs reads it.
use hepta_dbcli.Prelude.{
  ℕ, ◌==◌, Bool, true, false, not, ◌||◌, List, [], ◌∷◌, ◌++◌, Option, some, ◌≡◌, refl, sym, ap, ◌∙◌,
  arith, Bool-cases, ==_iff, inl, inr,
}
use mathlib.Core.List.{append_assoc, append-nil}
use hepta_dbcli.Text.{Text}
use hepta_dbcli.Csv.{
  doubled, holds, wants_quotes, csv_field, Record, Scan, field_value, takes_two, on_two, on_char,
  scan,
}

-- The reader's variables, written out.
abbrev pub between : List Record → Record → Scan
between recs cur = record {
  records = recs;
  current = cur;
  field = [];
  field_is_quoted = false;
  in_quotes = false;
}

abbrev within_field : List Record → Record → Text → Bool → Bool → Scan
within_field recs cur f q i = record {
  records = recs;
  current = cur;
  field = f;
  field_is_quoted = q;
  in_quotes = i;
}

scan_one :
    (c : ℕ) (s : Text) (st : Scan)
    → ((d : ℕ) → takes_two c d st ≡ false)
    → scan (c ∷ s) st ≡ scan s (on_char c st)
unfolding scan
scan_one c [] st never = refl
scan_one c (d ∷ s) st never = rw (never d, scan) refl

scan_two :
    (c d : ℕ) (s : Text) (st : Scan)
    → takes_two c d st ≡ true
    → scan (c ∷ d ∷ s) st ≡ scan s (on_two st)
unfolding scan
scan_two c d s st e = rw (e, scan) refl

-- A character that stands for itself outside quotes.
abbrev ordinary : ℕ → Bool
ordinary c = not (c == 34 || (c == 44 || (c == 10 || c == 13)))

abbrev AllOrdinary : Text → Type 0
AllOrdinary [] = Unit
AllOrdinary (c ∷ s) = (ordinary c ≡ true) × AllOrdinary s

or_false : (a b : Bool) → not (a || b) ≡ true → (a ≡ false) × (not b ≡ true)
or_false true b h = cc
or_false false b h = (refl, h)

on_char-ordinary :
    (c : ℕ) (recs : List Record) (cur : Record) (f : Text)
    → ordinary c ≡ true
    → on_char c (within_field recs cur f false false)
      ≡ within_field recs cur (f ++ c ∷ []) false false
on_char-ordinary c recs cur f h =
    let quote = or_false (c == 34) _ h in
    let comma = or_false (c == 44) _ quote.1 in rw (quote.0, comma.0, not_true _ comma.1) refl
  where
    not_true : (b : Bool) → not b ≡ true → b ≡ false
    not_true true e = cc
    not_true false e = refl

append_step : (f t : Text) (c : ℕ) → (f ++ c ∷ []) ++ t ≡ f ++ c ∷ t
append_step f t c = append_assoc f (c ∷ []) t

scan-ordinary :
    (t r : Text) (recs : List Record) (cur : Record) (f : Text)
    → AllOrdinary t
    → scan (t ++ r) (within_field recs cur f false false)
      ≡ scan r (within_field recs cur (f ++ t) false false)
scan-ordinary [] r recs cur f h = rw append-nil refl
scan-ordinary (c ∷ t) r recs cur f h =
    scan_one c (t ++ r) (within_field recs cur f false false) (λ d. ground arith)
    ∙ ap (scan (t ++ r)) (on_char-ordinary c recs cur f h.0)
    ∙ scan-ordinary t r recs cur (f ++ c ∷ []) h.1
    ∙ ap (λ (g : Text). scan r (within_field recs cur g false false)) (append_step f t c)

on_char-in_quotes :
    (c : ℕ) (recs : List Record) (cur : Record) (f : Text)
    → (c == 34) ≡ false
    → on_char c (within_field recs cur f true true) ≡ within_field recs cur (f ++ c ∷ []) true true
on_char-in_quotes c recs cur f h = rw h refl

scan-doubled :
    (t r : Text) (recs : List Record) (cur : Record) (f : Text)
    → scan (doubled t ++ r) (within_field recs cur f true true)
      ≡ scan r (within_field recs cur (f ++ t) true true)
scan-doubled [] r recs cur f = rw append-nil refl
scan-doubled (c ∷ t) r recs cur f = elim (Bool-cases (c == 34)) [
  | inl e ↦ rw e (
      scan_two 34 34 (doubled t ++ r) (within_field recs cur f true true) refl
      ∙ scan-doubled t r recs cur (f ++ 34 ∷ [])
      ∙ ap (λ (g : Text). scan r (within_field recs cur g true true))
          (append_step f t 34 ∙ ap (λ (d : ℕ). f ++ d ∷ t) (sym ((==_iff c 34).0 e))))
  | inr e ↦ rw e (
      scan_one c (doubled t ++ r) (within_field recs cur f true true) (λ d. rw e refl)
      ∙ ap (scan (doubled t ++ r)) (on_char-in_quotes c recs cur f e)
      ∙ scan-doubled t r recs cur (f ++ c ∷ [])
      ∙ ap (λ (g : Text). scan r (within_field recs cur g true true)) (append_step f t c))
]

-- The separators.
scan-comma :
    (r : Text) (recs : List Record) (cur : Record) (f : Text) (q : Bool)
    → scan (44 ∷ r) (within_field recs cur f q false)
      ≡ scan r (between recs (cur ++ field_value f q ∷ []))
scan-comma r recs cur f q = scan_one 44 r (within_field recs cur f q false) (λ d. refl)

scan-newline :
    (r : Text) (recs : List Record) (cur : Record) (f : Text) (q : Bool)
    → scan (10 ∷ r) (within_field recs cur f q false)
      ≡ scan r (between (recs ++ (cur ++ field_value f q ∷ []) ∷ []) [])
scan-newline r recs cur f q = scan_one 10 r (within_field recs cur f q false) (λ d. refl)

-- The text, with a separator behind it, is read as the field.
pub record ReadsAs (w : Text) (o : Option Text) : Type 0 where
  pub comma :
      (r : Text) (recs : List Record) (cur : Record)
      → scan (w ++ 44 ∷ r) (between recs cur) ≡ scan r (between recs (cur ++ o ∷ []))
  pub newline :
      (r : Text) (recs : List Record) (cur : Record)
      → scan (w ++ 10 ∷ r) (between recs cur) ≡ scan r (between (recs ++ (cur ++ o ∷ []) ∷ []) [])

ordinary-ReadsAs : (t : Text) → AllOrdinary t → ReadsAs t (field_value t false)
ordinary-ReadsAs t h = record {
  comma = λ r recs cur. scan-ordinary t (44 ∷ r) recs cur [] h ∙ scan-comma r recs cur t false;
  newline = λ r recs cur. scan-ordinary t (10 ∷ r) recs cur [] h ∙ scan-newline r recs cur t false;
}

closing :
    (d : ℕ) (r : Text) (recs : List Record) (cur : Record) (f : Text)
    → (d == 34) ≡ false
    → scan (34 ∷ d ∷ r) (within_field recs cur f true true)
      ≡ scan (d ∷ r) (within_field recs cur f true false)
unfolding scan
closing d r recs cur f h = rw (h, scan) refl

scan-quoted :
    (t : Text) (d : ℕ) (r : Text) (recs : List Record) (cur : Record)
    → (d == 34) ≡ false
    → scan ((34 ∷ doubled t ++ 34 ∷ []) ++ d ∷ r) (between recs cur)
      ≡ scan (d ∷ r) (within_field recs cur t true false)
scan-quoted t d r recs cur h =
    scan_one 34 ((doubled t ++ 34 ∷ []) ++ d ∷ r) (between recs cur) (λ _. refl)
    ∙ ap (λ (s : Text). scan s (within_field recs cur [] true true))
        (append_assoc (doubled t) (34 ∷ []) (d ∷ r))
    ∙ scan-doubled t (34 ∷ d ∷ r) recs cur []
    ∙ closing d r recs cur t h

field_value-quoted : (t : Text) → field_value t true ≡ some t
field_value-quoted [] = refl
field_value-quoted (c ∷ t) = refl

quoted-ReadsAs : (t : Text) → ReadsAs (34 ∷ doubled t ++ 34 ∷ []) (some t)
quoted-ReadsAs t = rw (← field_value-quoted t) (record {
  comma = λ r recs cur. scan-quoted t 44 r recs cur refl ∙ scan-comma r recs cur t true;
  newline = λ r recs cur. scan-quoted t 10 r recs cur refl ∙ scan-newline r recs cur t true;
})

ordinary_all :
    (t : Text)
    → holds 44 t ≡ false
    → holds 34 t ≡ false
    → holds 10 t ≡ false
    → holds 13 t ≡ false
    → AllOrdinary t
ordinary_all [] a b c d = tt
ordinary_all (x ∷ t) a b c d =
    let p = none_of (x == 44) (holds 44 t) a in
    let q = none_of (x == 34) (holds 34 t) b in
    let u = none_of (x == 10) (holds 10 t) c in
    let v = none_of (x == 13) (holds 13 t) d in
    (rw (p.0, q.0, u.0, v.0) refl, ordinary_all t p.1 q.1 u.1 v.1)
  where
    none_of : (s t : Bool) → (s || t) ≡ false → (s ≡ false) × (t ≡ false)
    none_of true t h = cc
    none_of false t h = (refl, h)

-- A text that the reader gives back: where it holds a CR, it holds a comma, a quote or an LF too, so that
-- it is quoted.
abbrev pub IsReadable : Text → Type 0
IsReadable t = holds 13 t ≡ true → wants_quotes t ≡ true

three_falses : (a b c : Bool) → (a || b || c) ≡ false → (a ≡ false) × (b ≡ false) × (c ≡ false)
three_falses false false false h = (refl, refl, refl)
three_falses true b c h = cc
three_falses false true c h = cc
three_falses false false true h = cc

not_held : (d w : Bool) → (d ≡ true → w ≡ true) → w ≡ false → d ≡ false
not_held false w h e = refl
not_held true w h e = cc (h refl)

unquoted : (t : Text) → IsReadable t → wants_quotes t ≡ false → AllOrdinary t
unquoted t h e =
    let f = three_falses (holds 44 t) (holds 34 t) (holds 10 t) e in
    ordinary_all t f.0 f.1 f.2 (not_held (holds 13 t) (wants_quotes t) h e)

pub csv_field-ReadsAs : (t : Text) → IsReadable t → ReadsAs (csv_field t) (field_value t false)
unfolding csv_field
csv_field-ReadsAs [] h = ordinary-ReadsAs [] tt
csv_field-ReadsAs (c ∷ t) h = elim (Bool-cases (wants_quotes (c ∷ t))) [
  | inl e ↦ rw e (quoted-ReadsAs (c ∷ t))
  | inr e ↦ rw e (ordinary-ReadsAs (c ∷ t) (unquoted (c ∷ t) h e))
]

pub empty-ReadsAs : ReadsAs (34 ∷ 34 ∷ []) (some [])
empty-ReadsAs = quoted-ReadsAs []
