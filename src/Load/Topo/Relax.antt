-- ===== src/Load/Topo/Relax.antt =====
-- The inner loop of the topological order: what is left of the degrees, and which names become ready.
use hepta_dbcli.Prelude.{
  ℕ, suc, ◌+◌, ◌==◌, Bool, true, false, ◌&&◌, ◌||◌, List, [], ◌∷◌, none, some, if◌then◌else◌, ◌≡◌,
  refl, sym, ap, ◌∙◌, arith, Bool-cases, inl, inr, if-cases,
}
use mathlib.Core.Path.{subst}
use native.Mathlib.Nat.{add-zero}
use hepta_dbcli.Text.{Text, text_eq, one_of}
use hepta_dbcli.Text.Laws.{text_eq_iff}
use hepta_dbcli.TextSet.{text_eq_refl, set_insert, one_of-set_insert, Distinct, set_insert-Distinct}
use hepta_dbcli.Load.Topo.{Outcome, ok, err, panic, out_of_fuel, ◌>>=◌, NameMap, put, relax}

-- The run ends with a value that has the property.
abbrev pub Finishes {ℓ} : {A : Type ℓ} → (A → Type 0) → Outcome A → Type 0
Finishes P (ok a) = P a
Finishes P (err e) = ⊥
Finishes P panic = ⊥
Finishes P out_of_fuel = ⊥

pub Finishes->>= {ℓ κ} :
    {A : Type ℓ} {B : Type κ} (P : A → Type 0) (Q : B → Type 0) (m : Outcome A) (f : A → Outcome B)
    → Finishes P m
    → ((a : A) → P a → Finishes Q (f a))
    → Finishes Q (m >>= f)
Finishes->>= P Q (ok a) f h k = k a h
Finishes->>= P Q (err e) f h k = h
Finishes->>= P Q panic f h k = h
Finishes->>= P Q out_of_fuel f h k = h

-- How often a name stands in a list.
abbrev pub count : Text → List Text → ℕ
count n [] = 0
count n (c ∷ cs) = if text_eq c n then suc (count n cs) else count n cs

abbrev pub AllIn : List Text → List Text → Type 0
AllIn nodes [] = Unit
AllIn nodes (c ∷ cs) = (one_of c nodes ≡ true) × AllIn nodes cs

-- The degrees are those that the function gives, for the names of the graph.
abbrev pub Tracks : List Text → NameMap ℕ → (Text → ℕ) → Type 0
Tracks nodes deg f = (n : Text) → deg n ≡ (if one_of n nodes then some (f n) else none)

-- What the inner loop leaves: the degrees `f`, and ready in addition what has been brought to zero.
abbrev pub Relaxed : List Text → (Text → ℕ) → List Text → List Text → NameMap ℕ × List Text → Type 0
Relaxed nodes f cs ready r =
    Tracks nodes r.0 f
    × ((n : Text) → one_of n r.1 ≡ (one_of n ready || (f n == 0 && one_of n cs)))
    × Distinct r.1

unchanged : (a b : Bool) → a ≡ (a || (b && false))
unchanged true b = refl
unchanged false true = refl
unchanged false false = refl

module _ (nodes : List Text) where
  Tracks-put :
      (c : Text) (cs : List Text) (deg : NameMap ℕ) (f : Text → ℕ)
      → one_of c nodes ≡ true
      → Tracks nodes deg (λ n. f n + count n (c ∷ cs))
      → Tracks nodes (put c (f c + count c cs) deg) (λ n. f n + count n cs)
  Tracks-put c cs deg f known h n = elim (Bool-cases (text_eq c n)) [
    | inl e ↦
        subst
          (λ (m : Text).
            (if text_eq c m then some (f c + count c cs) else deg m)
            ≡ (if one_of m nodes then some (f m + count m cs) else none))
          ((text_eq_iff c n).0 e) (rw (text_eq_refl c, known) refl)
    | inr e ↦ rw e (rw e at (h n))
  ]

  open_degree :
      (c : Text) (cs : List Text) (deg : NameMap ℕ) (f : Text → ℕ)
      → one_of c nodes ≡ true
      → Tracks nodes deg (λ n. f n + count n (c ∷ cs))
      → deg c ≡ some (suc (f c + count c cs))
  open_degree c cs deg f known h = h c ∙ rw (known, text_eq_refl c) (ap some (omega arith))

  -- Ready names have no edge left.
  abbrev Settled : List Text → (Text → ℕ) → Type 0
  Settled ready g = (n : Text) → one_of n ready ≡ true → g n ≡ 0

  not_ready :
      (c : Text) (cs ready : List Text) (f : Text → ℕ)
      → Settled ready (λ n. f n + count n (c ∷ cs))
      → one_of c ready ≡ false
  not_ready c cs ready f settled = elim (Bool-cases (one_of c ready)) [
    | inl e ↦ absurd (positive (settled c e))
    | inr e ↦ e
  ]
    where
      positive : f c + count c (c ∷ cs) ≡ 0 → ⊥
      positive e = let h = (rw (text_eq_refl c) at e) in omega arith

  -- The ready names behind one child.
  abbrev next_ready : Text → List Text → List Text → (Text → ℕ) → List Text
  next_ready c cs ready f = if (f c + count c cs) == 0 then set_insert c ready else ready

  one_of-next :
      (c : Text) (cs ready : List Text) (f : Text → ℕ) (n : Text)
      → one_of n (next_ready c cs ready f)
        ≡ (((f c + count c cs) == 0) && text_eq c n || one_of n ready)
  one_of-next c cs ready f n =
      if-cases
        (λ (r : List Text).
          one_of n r ≡ (((f c + count c cs) == 0) && text_eq c n || one_of n ready))
        ((f c + count c cs) == 0) (λ e. rw e (one_of-set_insert n c ready)) (λ e. rw e refl)

  next_ready-Settled :
      (c : Text) (cs ready : List Text) (f : Text → ℕ)
      → Settled ready (λ n. f n + count n (c ∷ cs))
      → Settled (next_ready c cs ready f) (λ n. f n + count n cs)
  next_ready-Settled c cs ready f settled n h = elim (Bool-cases (text_eq c n)) [
    | inl e ↦
        subst (λ (m : Text). one_of m (next_ready c cs ready f) ≡ true → f m + count m cs ≡ 0)
          ((text_eq_iff c n).0 e) at_child h
    | inr e ↦ rw e at (settled n (other _ (rw e at (sym (one_of-next c cs ready f n) ∙ h))))
  ]
    where
      other : (b : Bool) → (b && false || one_of n ready) ≡ true → one_of n ready ≡ true
      other true h = h
      other false h = h

      zero_of :
          (a b : Bool)
          → a ≡ false
          → ((f c + count c cs) == 0 && b || a) ≡ true
          → f c + count c cs ≡ 0
      zero_of a b p q = ground arith

      at_child : one_of c (next_ready c cs ready f) ≡ true → f c + count c cs ≡ 0
      at_child q =
          zero_of (one_of c ready) (text_eq c c) (not_ready c cs ready f settled)
            (sym (one_of-next c cs ready f c) ∙ q)

  pub count-none : (n : Text) (cs : List Text) → one_of n cs ≡ false → count n cs ≡ 0
  unfolding one_of
  count-none n [] h = refl
  count-none n (c ∷ cs) h = elim (Bool-cases (text_eq c n)) [
    | inl e ↦ cc (rw e at h)
    | inr e ↦ rw e (count-none n cs (rw e at h))
  ]

  settle :
      (d k : ℕ) (a c : Bool)
      → (c ≡ false → k ≡ 0)
      → ((((d + k) == 0) && true || a) || ((d == 0) && c)) ≡ (a || ((d == 0) && true))
  settle d k true true h = ground arith
  settle d k false true h = ground arith
  settle d k true false h = ground (arith, h refl)
  settle d k false false h = ground (arith, h refl)

  one_of-next_ready :
      (c : Text) (cs ready : List Text) (f : Text → ℕ) (n : Text)
      → (one_of n (next_ready c cs ready f) || (f n == 0 && one_of n cs))
        ≡ (one_of n ready || (f n == 0 && one_of n (c ∷ cs)))
  unfolding one_of
  one_of-next_ready c cs ready f n = elim (Bool-cases (text_eq c n)) [
    | inl e ↦
        subst
          (λ (m : Text).
            (one_of m (next_ready c cs ready f) || (f m == 0 && one_of m cs))
            ≡ (one_of m ready || (f m == 0 && (text_eq c m || one_of m cs))))
          ((text_eq_iff c n).0 e)
          (rw (one_of-next c cs ready f c, text_eq_refl c)
            (settle (f c) (count c cs) (one_of c ready) (one_of c cs) (count-none c cs)))
    | inr e ↦ rw (one_of-next c cs ready f n, e) (apart _ (one_of n ready) _)
  ]
    where
      apart : (t a b : Bool) → ((t && false || a) || b) ≡ (a || b)
      apart true a b = refl
      apart false a b = refl

  next_ready-Distinct :
      (c : Text) (cs ready : List Text) (f : Text → ℕ)
      → one_of c ready ≡ false
      → Distinct ready
      → Distinct (next_ready c cs ready f)
  next_ready-Distinct c cs ready f new h =
      if-cases Distinct ((f c + count c cs) == 0) (λ _. set_insert-Distinct c ready new h) (λ _. h)

  pub relax-Relaxed :
      (cs : List Text) (deg : NameMap ℕ) (ready : List Text) (f : Text → ℕ)
      → AllIn nodes cs
      → Tracks nodes deg (λ n. f n + count n cs)
      → Settled ready (λ n. f n + count n cs)
      → Distinct ready
      → Finishes (Relaxed nodes f cs ready) (relax cs deg ready)
  unfolding relax one_of
  relax-Relaxed [] deg ready f known h settled d =
      ((λ n. rw add-zero at (h n)), (λ n. unchanged (one_of n ready) (f n == 0)), d)
  relax-Relaxed (c ∷ cs) deg ready f known h settled d =
      rw (open_degree c cs deg f known.0 h, relax)
        (weaken _ (
          relax-Relaxed cs (put c (f c + count c cs) deg) (next_ready c cs ready f) f known.1
            (Tracks-put c cs deg f known.0 h) (next_ready-Settled c cs ready f settled)
            (next_ready-Distinct c cs ready f (not_ready c cs ready f settled) d)))
    where
      weaken :
          (o : Outcome (NameMap ℕ × List Text))
          → Finishes (Relaxed nodes f cs (next_ready c cs ready f)) o
          → Finishes (Relaxed nodes f (c ∷ cs) ready) o
      weaken (ok r) h = (h.0, (λ n. h.1 n ∙ one_of-next_ready c cs ready f n), h.2)
      weaken (err e) h = h
      weaken panic h = h
      weaken out_of_fuel h = h
