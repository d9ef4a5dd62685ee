-- ===== src/Load/Topo/Waiting.antt =====
-- The tables that are left out, and those that wait for a parent.
use hepta_dbcli.Prelude.{
  ℕ, suc, ◌+◌, ◌≤◌, ◌<◌, ◌==◌, Bool, true, false, not, ◌&&◌, ◌||◌, List, [], ◌∷◌, length,
  if◌then◌else◌, ◌≡◌, refl, sym, arith, Bool-cases, inl, inr,
}
use mathlib.Core.Path.{subst}
use hepta_dbcli.Text.{Text, text_eq, one_of}
use hepta_dbcli.Text.Laws.{text_eq_iff}
use hepta_dbcli.Load.Topo.{left_out}
use hepta_dbcli.Load.Topo.Relax.{count, AllIn}
use hepta_dbcli.Load.Topo.Degrees.{Edges, Edge, pending, text_eq_swapped}

module _ (taken : List Text) where
  left_out-le :
      (x : Text) (ns : List Text) → length (left_out (x ∷ taken) ns) ≤ length (left_out taken ns)
  unfolding one_of
  left_out-le x [] = omega arith
  left_out-le x (n ∷ ns) = step (text_eq x n) (one_of n taken) (left_out-le x ns)
    where
      step :
          (a b : Bool)
          → length (left_out (x ∷ taken) ns) ≤ length (left_out taken ns)
          → length (if a || b then left_out (x ∷ taken) ns else n ∷ left_out (x ∷ taken) ns)
            ≤ length (if b then left_out taken ns else n ∷ left_out taken ns)
      step true true h = h
      step true false h = omega arith
      step false true h = h
      step false false h = omega arith

  pub left_out-lt :
      (x : Text) (ns : List Text)
      → one_of x ns ≡ true
      → one_of x taken ≡ false
      → length (left_out (x ∷ taken) ns) < length (left_out taken ns)
  unfolding one_of
  left_out-lt x [] h k = cc
  left_out-lt x (n ∷ ns) h k = elim (Bool-cases (text_eq n x)) [
    | inl e ↦
        rw
          (
            text_eq_swapped x n,
            e,
            subst (λ (m : Text). one_of m taken ≡ false) (sym ((text_eq_iff n x).0 e)) k,
          )
          (omega (arith, left_out-le x ns))
    | inr e ↦ rw (text_eq_swapped x n, e) (step (one_of n taken) (left_out-lt x ns (rw e at h) k))
  ]
    where
      step :
          (b : Bool)
          → length (left_out (x ∷ taken) ns) < length (left_out taken ns)
          → length (if b then left_out (x ∷ taken) ns else n ∷ left_out (x ∷ taken) ns)
            < length (if b then left_out taken ns else n ∷ left_out taken ns)
      step true h = h
      step false h = omega arith

pub pending-le :
    (es : Edges) (x : Text) (taken : List Text) (n : Text)
    → pending es (x ∷ taken) n ≤ pending es taken n
unfolding one_of
pending-le [] x taken n = omega arith
pending-le ((p, c) ∷ es) x taken n =
    step (text_eq c n) (text_eq x p) (one_of p taken) (pending-le es x taken n)
  where
    step :
        (a b t : Bool)
        → pending es (x ∷ taken) n ≤ pending es taken n
        → (if a && not (b || t) then suc (pending es (x ∷ taken) n) else pending es (x ∷ taken) n)
          ≤ (if a && not t then suc (pending es taken n) else pending es taken n)
    step false b t h = h
    step true true true h = h
    step true true false h = omega arith
    step true false true h = h
    step true false false h = omega arith

and_not : (a b : Bool) → (a && not b) ≡ true → (a ≡ true) × (b ≡ false)
and_not true false h = (refl, refl)
and_not true true h = cc
and_not false b h = cc

-- A table with open parents has one.
pub open_parent :
    (es : Edges) (taken : List Text) (n : Text)
    → 0 < pending es taken n
    → (p : Text) × Edge p n es × (one_of p taken ≡ false)
open_parent [] taken n h = absurd (omega arith)
open_parent ((q, c) ∷ es) taken n h = elim (Bool-cases (text_eq c n && not (one_of q taken))) [
  | inl e ↦
      let both = and_not (text_eq c n) (one_of q taken) e in
      (q, inl (refl, (text_eq_iff c n).0 both.0), both.1)
  | inr e ↦ let r = open_parent es taken n (rw e at h) in (r.0, inr r.1, r.2)
]

pub one_of-count : (n : Text) (cs : List Text) → one_of n cs ≡ true → 0 < count n cs
unfolding one_of
one_of-count n [] h = cc
one_of-count n (c ∷ cs) h = elim (Bool-cases (text_eq c n)) [
  | inl e ↦ rw e (omega arith)
  | inr e ↦ rw e (one_of-count n cs (rw e at h))
]

pub one_of-AllIn :
    (nodes cs : List Text) (n : Text) → AllIn nodes cs → one_of n cs ≡ true → one_of n nodes ≡ true
unfolding one_of
one_of-AllIn nodes [] n all h = cc
one_of-AllIn nodes (c ∷ cs) n all h = elim (Bool-cases (text_eq c n)) [
  | inl e ↦ subst (λ (m : Text). one_of m nodes ≡ true) ((text_eq_iff c n).0 e) all.0
  | inr e ↦ one_of-AllIn nodes cs n all.1 (rw e at h)
]

pub combine :
    (k t c r : Bool) (f m q : ℕ)
    → r ≡ (k && not t && q == 0)
    → (k ≡ true → q ≡ f + m)
    → (t ≡ true → q ≡ 0)
    → (c ≡ true → k ≡ true)
    → (c ≡ true → 0 < m)
    → (c ≡ false → m ≡ 0)
    → (r || (f == 0 && c)) ≡ (k && not t && f == 0)
combine true true true r f m q h1 h2 h3 h4 h5 h6 = ground (arith, h2 refl, h3 refl, h5 refl)
combine true true false r f m q h1 h2 h3 h4 h5 h6 = ground (arith, h2 refl, h3 refl, h6 refl)
combine true false true r f m q h1 h2 h3 h4 h5 h6 = ground (arith, h2 refl, h5 refl)
combine true false false r f m q h1 h2 h3 h4 h5 h6 = ground (arith, h2 refl, h6 refl)
combine false t true r f m q h1 h2 h3 h4 h5 h6 = cc (h4 refl)
combine false t false r f m q h1 h2 h3 h4 h5 h6 = ground arith
