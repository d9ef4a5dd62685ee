-- ===== src/Audit/Scrub/Truncate.antt =====
-- The cut of a long statement: `truncate_for_audit` of dbcli/src/audit/scrub.rs.
use hepta_dbcli.Prelude.{
  ℕ, zero, suc, ◌+◌, ◌-◌, ◌==◌, ◌≤◌, ◌<◌, Bool, true, false, ◌&&◌, ◌||◌, [], ◌∷◌, ◌++◌, Option,
  none, some, leb, if◌then◌else◌, ◌≡◌, refl, ap, ◌∙◌, inl, inr, arith, Bool-cases, leb→le,
}
use hepta_dbcli.Text.{Text}
use hepta_dbcli.Audit.Scrub.{
  width, byte_len, is_char_boundary, take_bytes, back_up, marked, truncate_for_audit,
}

-- The longest part at the front that fits.
abbrev fitting : Text → ℕ → Text
fitting [] m = []
fitting (c ∷ s) m = let rest = fitting s (m - width c) in if leb (width c) m then c ∷ rest else []

width-pos : (c : ℕ) → 0 < width c
unfolding width
width-pos c = ground arith

boundary_at_start : (s : Text) → is_char_boundary s 0 ≡ true
unfolding is_char_boundary
boundary_at_start [] = refl
boundary_at_start (c ∷ s) = refl

back : (w k : ℕ) → (w + k) - w ≡ k
back w k = omega arith

take_bytes-none : (s : Text) → take_bytes 0 s ≡ some []
unfolding take_bytes
take_bytes-none s = refl

back_up-empty : (n : ℕ) → back_up [] n ≡ 0
unfolding back_up is_char_boundary
back_up-empty zero = refl
back_up-empty (suc n) = rw (back_up-empty n) (ground arith)

module _ (c : ℕ) (s : Text) where
  boundary_within : (n : ℕ) → suc n < width c → is_char_boundary (c ∷ s) (suc n) ≡ false
  unfolding is_char_boundary
  boundary_within n h = ground arith

  boundary_after : (k : ℕ) → is_char_boundary (c ∷ s) (width c + k) ≡ is_char_boundary s k
  unfolding is_char_boundary
  boundary_after k = rw back (first_test (width c) k (is_char_boundary s k) (width-pos c))
    where
      first_test : (w k : ℕ) (b : Bool) → 0 < w → ((w + k) == 0 || leb w (w + k) && b) ≡ b
      first_test w k b h = ground arith

  -- From within the first character the cut goes back to its start.
  back_up-first : (n : ℕ) → n < width c → back_up (c ∷ s) n ≡ 0
  unfolding back_up
  back_up-first zero h = refl
  back_up-first (suc n) h = rw (boundary_within n h, back_up-first n (omega arith)) refl

  back_up-boundary : (t : Text) (n : ℕ) → is_char_boundary t n ≡ true → back_up t n ≡ n
  unfolding back_up
  back_up-boundary t zero h = refl
  back_up-boundary t (suc n) h = rw h refl

  back_up-less :
      (t : Text) (n : ℕ) → is_char_boundary t (suc n) ≡ false → back_up t (suc n) ≡ back_up t n
  unfolding back_up
  back_up-less t n h = rw h refl

  back_up-next : (k : ℕ) → back_up (c ∷ s) (width c + k) ≡ width c + back_up s k
  unfolding back_up
  back_up-next zero =
      back_up-boundary (c ∷ s) (width c + 0) (boundary_after 0 ∙ boundary_at_start s)
  back_up-next (suc k) = elim (Bool-cases (is_char_boundary s (suc k))) [
    | inl e ↦
        rw (back_up-boundary s (suc k) e)
          (back_up-boundary (c ∷ s) (width c + suc k) (boundary_after (suc k) ∙ e))
    | inr e ↦ rw (back_up-less s k e) (
        less (width c) (width c + suc k) (omega arith) (boundary_after (suc k) ∙ e)
          (back_up-next k))
  ]
    where
      less :
          (w n : ℕ)
          → n ≡ suc (w + k)
          → is_char_boundary (c ∷ s) n ≡ false
          → back_up (c ∷ s) (w + k) ≡ w + back_up s k
          → back_up (c ∷ s) n ≡ w + back_up s k
      less w n e f ih = rw e (back_up-less (c ∷ s) (w + k) (rw e at f) ∙ ih)

  abbrev with_first : Option Text → Option Text
  with_first none = none
  with_first (some t) = some (c ∷ t)

  cut_first :
      (n k : ℕ)
      → leb (width c) (suc n) ≡ true
      → suc n - width c ≡ k
      → take_bytes (suc n) (c ∷ s) ≡ with_first (take_bytes k s)
  unfolding take_bytes
  cut_first n k h e = rw (take_bytes, h, e) (same (take_bytes k s))
    where
      same : (o : Option Text) → elim o [ none ↦ none | some t ↦ some (c ∷ t) ] ≡ with_first o
      same none = refl
      same (some t) = refl

  take_bytes-next : (k : ℕ) → take_bytes (width c + k) (c ∷ s) ≡ with_first (take_bytes k s)
  take_bytes-next k =
      step (width c + k) (omega (arith, width-pos c)) (fits (width c) k) (back (width c) k)
    where
      fits : (w k : ℕ) → leb w (w + k) ≡ true
      fits w k = ground arith

      step :
          (n : ℕ)
          → 0 < n
          → leb (width c) n ≡ true
          → n - width c ≡ k
          → take_bytes n (c ∷ s) ≡ with_first (take_bytes k s)
      step zero p h e = absurd (omega arith)
      step (suc n) p h e = cut_first n k h e

-- The cut takes the characters that fit.
take_bytes-back_up : (s : Text) (n : ℕ) → take_bytes (back_up s n) s ≡ some (fitting s n)
take_bytes-back_up [] n = rw (back_up-empty n) (take_bytes-none [])
take_bytes-back_up (c ∷ s) n = elim (Bool-cases (leb (width c) n)) [
  | inl e ↦
      let whole : n ≡ width c + (n - width c) = omega (arith, leb→le (width c) n e) in
      rw e (
        ap (λ (m : ℕ). take_bytes (back_up (c ∷ s) m) (c ∷ s)) whole
        ∙ ap (λ (m : ℕ). take_bytes m (c ∷ s)) (back_up-next c s (n - width c))
        ∙ take_bytes-next c s (back_up s (n - width c))
        ∙ ap (with_first c s) (take_bytes-back_up s (n - width c)))
  | inr e ↦ rw (e, back_up-first c s n (less (width c) n e)) (take_bytes-none (c ∷ s))
]
  where
    less : (w n : ℕ) → leb w n ≡ false → n < w
    less w n e = ground arith

-- What a cut promises: it is marked just where something is cut off, it is within the limit, and the next
-- character would not be.
abbrev pub Cuts : Text → ℕ → Text × Bool → Type 0
Cuts s limit (t, false) = (t ≡ s) × (byte_len s ≤ limit)
Cuts s limit (t, true) =
    (c : ℕ) × (rest : Text) × (s ≡ t ++ c ∷ rest)
    × (byte_len t ≤ limit)
    × (limit < byte_len t + width c)

fitting-Cuts : (s : Text) (limit : ℕ) → limit < byte_len s → Cuts s limit (fitting s limit, true)
fitting-Cuts [] limit h = absurd (omega arith)
fitting-Cuts (c ∷ s) limit h = elim (Bool-cases (leb (width c) limit)) [
  | inl e ↦
      let fits = leb→le (width c) limit e in
      let r = fitting-Cuts s (limit - width c) (omega arith) in
      rw e (r.0, r.1, ap (◌∷◌ c) r.2, omega (arith, r.3), omega (arith, r.4))
  | inr e ↦ rw e (c, s, refl, omega arith, less (width c) limit e)
]
  where
    less : (w n : ℕ) → leb w n ≡ false → n < 0 + w
    less w n e = ground arith

-- The cut of a text for the audit file never fails. It leaves a text alone that is within the limit of
-- bytes, and says so. Else it gives the longest part at the front that is within the limit and ends with a
-- character, and says that something has been cut off.
pub truncate_for_audit-Cuts :
    (s : Text) (limit : ℕ)
    → (r : Text × Bool) × (truncate_for_audit s limit ≡ some r) × Cuts s limit r
unfolding truncate_for_audit
truncate_for_audit-Cuts s limit = elim (Bool-cases (leb (byte_len s) limit)) [
  | inl e ↦ ((s, false), rw e refl, (refl, leb→le (byte_len s) limit e))
  | inr e ↦ (
    (fitting s limit, true),
    rw e (ap marked (take_bytes-back_up s limit)),
    fitting-Cuts s limit (less (byte_len s) limit e),
  )
]
  where
    less : (w n : ℕ) → leb w n ≡ false → n < w
    less w n e = ground arith
