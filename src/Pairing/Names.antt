-- ===== src/Pairing/Names.antt =====
-- The names that `pair_names` of dbcli/src/delta_diff/pairing.rs pairs.
use hepta_dbcli.Prelude.{
  ℕ, zero, suc, ◌+◌, ◌≤◌, Bool, true, false, List, [], ◌∷◌, map, Option, none, some, get_or, length,
  replicate, if◌then◌else◌, ◌≡◌, refl, ap, ◌∙◌, arith,
}
use hepta_dbcli.Text.{Text, text_eq, eq_ignore_ascii_case, lower_ascii}
use hepta_dbcli.Text.Laws.{text_eq_iff}
use hepta_dbcli.Pairing.{
  open_matches, first_of, mark_paired, pair_exact, pair_candidates, pair_folded, pair_names,
}
use hepta_dbcli.Pairing.Once.{
  AllOpen, open_matches-AllOpen, flag, times, pair_exact-flag, length-pair_exact, pair_folded-flag,
}

-- The pairs name columns that are equal up to the case of ASCII letters.
unfoldable pub Matches : List Text → List Text → List (Option ℕ) → Type 0
unfolding eq_ignore_ascii_case
Matches right [] [] = Unit {0}
Matches right (l ∷ ls) (none ∷ os) = Matches right ls os
Matches right (l ∷ ls) (some i ∷ os) =
    (eq_ignore_ascii_case (get_or right i []) l ≡ true) × Matches right ls os
Matches right _ _ = ⊥

abbrev Passes : (Text → Bool) → List Text → Option ℕ → Type 0
Passes p ns none = Unit {0}
Passes p ns (some i) = p (get_or ns i []) ≡ true

first_of-Passes :
    (p : Text → Bool) (ns : List Text) (ts : List Bool) (is : List ℕ)
    → AllOpen p 0 ns ts is
    → Passes p ns (first_of is)
first_of-Passes p ns ts [] h = tt
first_of-Passes p ns ts (i ∷ is) ((j, at, free, passes), h) =
    ap (λ (k : ℕ). p (get_or ns k [])) (plain at) ∙ passes
  where
    plain : i ≡ 0 + j → i ≡ j
    plain e = omega (arith, e)

pair_candidates-Passes :
    (p : Text → Bool) (l : Text) (ns : List Text) (ts : List Bool) (is : List ℕ)
    → AllOpen p 0 ns ts is
    → Passes p ns (pair_candidates l is).0
pair_candidates-Passes p l ns ts [] h = tt
pair_candidates-Passes p l ns ts (i ∷ []) h = first_of-Passes p ns ts (i ∷ []) h
pair_candidates-Passes p l ns ts (i ∷ j ∷ is) h = tt

same_name : (s t : Text) → text_eq s t ≡ true → eq_ignore_ascii_case s t ≡ true
unfolding eq_ignore_ascii_case
same_name s t e = (text_eq_iff _ _).1 (ap (map lower_ascii) ((text_eq_iff s t).0 e))

Matches-cons :
    (right : List Text) (l : Text) (ls : List Text) (o : Option ℕ) (os : List (Option ℕ))
    → Passes (λ n. eq_ignore_ascii_case n l) right o
    → Matches right ls os
    → Matches right (l ∷ ls) (o ∷ os)
unfolding Matches
Matches-cons right l ls none os h m = m
Matches-cons right l ls (some i) os h m = (h, m)

Matches-nil : (right : List Text) → Matches right [] []
unfolding Matches
Matches-nil right = tt

pair_exact-Matches :
    (right ls : List Text) (paired : List Bool) → Matches right ls (pair_exact right ls paired).0
unfolding pair_exact
pair_exact-Matches right [] paired = Matches-nil right
pair_exact-Matches right (l ∷ ls) paired =
    let matches = open_matches (λ n. text_eq n l) 0 right paired in
    let found = first_of matches in
    Matches-cons right l ls found _
      (weaker found (
        first_of-Passes (λ n. text_eq n l) right paired matches
          (open_matches-AllOpen (λ n. text_eq n l) 0 right paired)))
      (pair_exact-Matches right ls (mark_paired found paired))
  where
    weaker :
        (o : Option ℕ)
        → Passes (λ n. text_eq n l) right o
        → Passes (λ n. eq_ignore_ascii_case n l) right o
    weaker none h = tt
    weaker (some i) h = same_name (get_or right i []) l h

pair_folded-Matches :
    (right ls : List Text) (es : List (Option ℕ)) (paired : List Bool)
    → Matches right ls es
    → Matches right ls (pair_folded right ls es paired).0
unfolding pair_folded Matches
pair_folded-Matches right [] [] paired m = tt
pair_folded-Matches right [] (e ∷ es) paired m = absurd m
pair_folded-Matches right (l ∷ ls) [] paired m = absurd m
pair_folded-Matches right (l ∷ ls) (some i ∷ es) paired (h, m) =
    (h, pair_folded-Matches right ls es paired m)
pair_folded-Matches right (l ∷ ls) (none ∷ es) paired m =
    let matches = open_matches (λ n. eq_ignore_ascii_case n l) 0 right paired in
    let found = (pair_candidates l matches).0 in
    Matches-cons right l ls found _
      (pair_candidates-Passes (λ n. eq_ignore_ascii_case n l) l right paired matches
        (open_matches-AllOpen (λ n. eq_ignore_ascii_case n l) 0 right paired))
      (pair_folded-Matches right ls es (mark_paired found paired) m)

flag-none : (n r : ℕ) → flag (replicate n false) r ≡ 0
flag-none zero r = refl
flag-none (suc n) zero = refl
flag-none (suc n) (suc r) = flag-none n r

flag_small : (ts : List Bool) (r : ℕ) → flag ts r ≤ 1
flag_small ts r = small (get_or ts r false)
  where
    small : (b : Bool) → (if b then 1 else 0) ≤ 1
    small true = omega arith
    small false = omega arith

-- Every left name is paired with one right name at most, which is equal to it up to the case of
-- ASCII letters, and no right name is paired twice.
pub pair_names-Matches :
    (left right : List Text) (r : ℕ)
    → Matches right left (pair_names left right).right_of_left
      × times r (pair_names left right).right_of_left ≤ 1
unfolding pair_names
pair_names-Matches left right r =
    let start = replicate (length right) false in
    let exact = pair_exact right left start in
    (
      pair_folded-Matches right left exact.0 exact.1 (pair_exact-Matches right left start),
      omega (
        arith,
        pair_exact-flag right left start r,
        flag-none (length right) r,
        pair_folded-flag right left exact.0 exact.1 r (length-pair_exact right left start),
        flag_small (pair_folded right left exact.0 exact.1).1 r,
      ),
    )
