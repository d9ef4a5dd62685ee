-- ===== src/TextSet.antt =====
-- A `BTreeSet` of texts: the list of its elements, in order.
use hepta_dbcli.Prelude.{
  or_false, or_swapped, Bool, true, false, ◌||◌, List, [], ◌∷◌, if◌then◌else◌, ◌≡◌, refl, ap, ◌∙◌,
  arith, Bool-cases, inl, inr,
}
use hepta_dbcli.Text.{Text, text_eq, one_of}
use hepta_dbcli.Text.Laws.{text_eq_iff}
use hepta_dbcli.Report.{text_le}

unfoldable pub set_insert : Text → List Text → List Text
unfolding text_eq text_le
set_insert t [] = t ∷ []
set_insert t (u ∷ us) =
    let rest = set_insert t us in
    if text_eq t u then u ∷ us else if text_le t u then t ∷ u ∷ us else u ∷ rest

pub text_eq_refl : (t : Text) → text_eq t t ≡ true
text_eq_refl t = (text_eq_iff t t).1 refl

absorb : (a b : Bool) → (a || b) ≡ (a || (a || b))
absorb true b = refl
absorb false b = refl

pub one_of-set_insert :
    (x t : Text) (us : List Text) → one_of x (set_insert t us) ≡ (text_eq t x || one_of x us)
unfolding one_of set_insert
one_of-set_insert x t [] = refl
one_of-set_insert x t (u ∷ us) = elim (Bool-cases (text_eq t u)) [
  | inl e ↦ rw ((text_eq_iff t u).0 e) (rw (text_eq_refl u) (absorb (text_eq u x) (one_of x us)))
  | inr e ↦ rw e (tail (text_le t u) (one_of-set_insert x t us))
]
  where
    tail :
        (b : Bool)
        → one_of x (set_insert t us) ≡ (text_eq t x || one_of x us)
        → one_of x (if b then t ∷ u ∷ us else u ∷ set_insert t us)
          ≡ (text_eq t x || (text_eq u x || one_of x us))
    tail true ih = refl
    tail false ih =
        ap (λ (r : Bool). text_eq u x || r) ih
        ∙ or_swapped (text_eq u x) (text_eq t x) (one_of x us)

pub one_of-set_insert_self : (t : Text) (us : List Text) → one_of t (set_insert t us) ≡ true
one_of-set_insert_self t us =
    one_of-set_insert t t us ∙ ap (λ (b : Bool). b || one_of t us) (text_eq_refl t)

pub one_of-set_insert_kept :
    (x t : Text) (us : List Text) → one_of x us ≡ true → one_of x (set_insert t us) ≡ true
one_of-set_insert_kept x t us h = rw (one_of-set_insert x t us, h) (ground arith)

-- No text stands twice.
abbrev pub Distinct : List Text → Type 0
Distinct [] = Unit
Distinct (t ∷ ts) = (one_of t ts ≡ false) × Distinct ts

-- A text that is not there is put in once.
pub set_insert-Distinct :
    (t : Text) (us : List Text) → one_of t us ≡ false → Distinct us → Distinct (set_insert t us)
unfolding set_insert one_of
set_insert-Distinct t [] new h = (refl, tt)
set_insert-Distinct t (u ∷ us) new h = elim (Bool-cases (text_eq t u)) [
  | inl e ↦ rw e h
  | inr e ↦ rw e (
      branch (text_le t u) e
        (set_insert-Distinct t us (or_false (text_eq u t) (one_of t us) new).1 h.1))
]
  where
    branch :
        (b : Bool)
        → text_eq t u ≡ false
        → Distinct (set_insert t us)
        → Distinct (if b then t ∷ u ∷ us else u ∷ set_insert t us)
    branch true e ih = (new, h)
    branch false e ih = (one_of-set_insert u t us ∙ rw (e, h.0) refl, ih)
