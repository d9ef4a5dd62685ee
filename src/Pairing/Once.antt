-- ===== src/Pairing/Once.antt =====
-- The marks of the right names that are paired: `pair_names` of dbcli/src/delta_diff/pairing.rs.
use mathlib.Core.Option.{some-injective}
use hepta_dbcli.Prelude.{
  ℕ, zero, suc, ◌+◌, ◌==◌, Bool, true, false, not, ◌&&◌, List, [], ◌∷◌, Option, none, some, set,
  get_or, get_elem?, length, if◌then◌else◌, ◌≡◌, refl, sym, ap, ◌∙◌, arith, Bool-cases, inl, inr,
}
use hepta_dbcli.Prelude.Sort.{count_if}
use hepta_dbcli.Text.{Text, text_eq, eq_ignore_ascii_case}
use hepta_dbcli.Pairing.{
  open_matches, first_of, mark_paired, pair_exact, pair_candidates, pair_folded,
}

-- The place `i`, counted from `k`, is a name that passes the test and is not paired.
abbrev Open : (Text → Bool) → ℕ → List Text → List Bool → ℕ → Type 0
Open p k ns ts i =
    (j : ℕ) × (i ≡ k + j) × (get_elem? ts j ≡ some false) × (p (get_or ns j []) ≡ true)

abbrev pub AllOpen : (Text → Bool) → ℕ → List Text → List Bool → List ℕ → Type 0
AllOpen p k ns ts [] = Unit {0}
AllOpen p k ns ts (i ∷ is) = Open p k ns ts i × AllOpen p k ns ts is

later-AllOpen :
    (p : Text → Bool) (k : ℕ) (n : Text) (t : Bool) (ns : List Text) (ts : List Bool) (is : List ℕ)
    → AllOpen p (suc k) ns ts is
    → AllOpen p k (n ∷ ns) (t ∷ ts) is
later-AllOpen p k n t ns ts [] h = tt
later-AllOpen p k n t ns ts (i ∷ is) ((j, at, free, passes), h) =
    ((suc j, omega (arith, at), free, passes), later-AllOpen p k n t ns ts is h)

unmarked : (t q : Bool) → (not t && q) ≡ true → t ≡ false
unmarked t q e = ground arith

pub open_matches-AllOpen :
    (p : Text → Bool) (k : ℕ) (ns : List Text) (ts : List Bool)
    → AllOpen p k ns ts (open_matches p k ns ts)
unfolding open_matches
open_matches-AllOpen p k [] ts = tt
open_matches-AllOpen p k (n ∷ ns) [] = tt
open_matches-AllOpen p k (n ∷ ns) (t ∷ ts) =
    let later = later-AllOpen p k n t ns ts _ (open_matches-AllOpen p (suc k) ns ts) in
    elim (Bool-cases (not t && p n)) [
      | inl e ↦ rw e ((0, omega arith, ap some (unmarked t (p n) e), ground arith), later)
      | inr e ↦ rw e later
    ]

-- How often a right name is paired, by its mark and in a list of pairs.
abbrev pub flag : List Bool → ℕ → ℕ
flag ts r = if get_or ts r false then 1 else 0

abbrev is_at : ℕ → Option ℕ → Bool
is_at r none = false
is_at r (some i) = i == r

abbrev pub times : ℕ → List (Option ℕ) → ℕ
times r os = count_if (is_at r) os

flag-set :
    (ts : List Bool) (i r : ℕ)
    → get_elem? ts i ≡ some false
    → flag (set ts i true) r ≡ (if i == r then 1 else 0) + flag ts r
flag-set [] i r h = absurd (ground arith)
flag-set (t ∷ ts) zero zero h = let e = some-injective t false h in ground arith
flag-set (t ∷ ts) zero (suc r) h = ground arith
flag-set (t ∷ ts) (suc i) zero h = ground arith
flag-set (t ∷ ts) (suc i) (suc r) h = let later = flag-set ts i r h in ground arith

-- Marking the place that was found counts it once.
abbrev Free : List Bool → Option ℕ → Type 0
Free ts none = Unit {0}
Free ts (some i) = get_elem? ts i ≡ some false

mark_paired-flag :
    (ts : List Bool) (o : Option ℕ) (r : ℕ)
    → Free ts o
    → flag (mark_paired o ts) r ≡ times r (o ∷ []) + flag ts r
mark_paired-flag ts none r h = omega arith
mark_paired-flag ts (some i) r h = flag-set ts i r h

first_of-Free :
    (p : Text → Bool) (ns : List Text) (ts : List Bool) (is : List ℕ)
    → AllOpen p 0 ns ts is
    → Free ts (first_of is)
first_of-Free p ns ts [] h = tt
first_of-Free p ns ts (i ∷ is) ((j, at, free, passes), h) =
    ap (get_elem? ts) (sym (plain at)) ∙ free
  where
    plain : i ≡ 0 + j → j ≡ i
    plain e = omega (arith, e)

times-cons :
    (r : ℕ) (o : Option ℕ) (os : List (Option ℕ)) → times r (o ∷ os) ≡ times r (o ∷ []) + times r os
times-cons r none os = omega arith
times-cons r (some i) os = ground arith

pub pair_exact-flag :
    (right ls : List Text) (paired : List Bool) (r : ℕ)
    → flag (pair_exact right ls paired).1 r ≡ times r (pair_exact right ls paired).0 + flag paired r
unfolding pair_exact
pair_exact-flag right [] paired r = omega arith
pair_exact-flag right (l ∷ ls) paired r =
    let matches = open_matches (λ n. text_eq n l) 0 right paired in
    let found = first_of matches in
    let free =
      first_of-Free (λ n. text_eq n l) right paired matches
        (open_matches-AllOpen (λ n. text_eq n l) 0 right paired) in
    omega (
      arith,
      pair_exact-flag right ls (mark_paired found paired) r,
      mark_paired-flag paired found r free,
      times-cons r found (pair_exact right ls (mark_paired found paired)).0,
    )

pub length-pair_exact :
    (right ls : List Text) (paired : List Bool) → length (pair_exact right ls paired).0 ≡ length ls
unfolding pair_exact
length-pair_exact right [] paired = refl
length-pair_exact right (l ∷ ls) paired = ap suc (length-pair_exact right ls _)

pair_candidates-Free :
    (p : Text → Bool) (l : Text) (ns : List Text) (ts : List Bool) (is : List ℕ)
    → AllOpen p 0 ns ts is
    → Free ts (pair_candidates l is).0
pair_candidates-Free p l ns ts [] h = tt
pair_candidates-Free p l ns ts (i ∷ []) h = first_of-Free p ns ts (i ∷ []) h
pair_candidates-Free p l ns ts (i ∷ j ∷ is) h = tt

pub pair_folded-flag :
    (right ls : List Text) (es : List (Option ℕ)) (paired : List Bool) (r : ℕ)
    → length es ≡ length ls
    → flag (pair_folded right ls es paired).1 r + times r es
      ≡ times r (pair_folded right ls es paired).0 + flag paired r
unfolding pair_folded
pair_folded-flag right [] [] paired r h = omega arith
pair_folded-flag right [] (e ∷ es) paired r h = absurd (omega arith)
pair_folded-flag right (l ∷ ls) [] paired r h = absurd (omega arith)
pair_folded-flag right (l ∷ ls) (some i ∷ es) paired r h = omega (
  arith,
  pair_folded-flag right ls es paired r (omega arith),
  times-cons r (some i) es,
  times-cons r (some i) (pair_folded right ls es paired).0,
)
pair_folded-flag right (l ∷ ls) (none ∷ es) paired r h =
    let matches = open_matches (λ n. eq_ignore_ascii_case n l) 0 right paired in
    let found = (pair_candidates l matches).0 in
    let free =
      pair_candidates-Free (λ n. eq_ignore_ascii_case n l) l right paired matches
        (open_matches-AllOpen (λ n. eq_ignore_ascii_case n l) 0 right paired) in
    omega (
      arith,
      pair_folded-flag right ls es (mark_paired found paired) r (omega arith),
      mark_paired-flag paired found r free,
      times-cons r found (pair_folded right ls es (mark_paired found paired)).0,
    )
