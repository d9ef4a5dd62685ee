-- ===== src/Sample/Selects.antt =====
-- The selection gives as many rows as wanted, in the order of the report.
use hepta_dbcli.Prelude.{
  or_false, ℕ, zero, suc, ◌+◌, ◌==◌, ◌≤◌, ◌<◌, leb, Bool, true, false, ◌||◌, List, [], ◌∷◌, length,
  ◌≡◌, refl, ap, ◌∙◌, arith, Bool-cases, inl, inr, if◌then◌else◌, if-cases, ==_iff,
}
use hepta_dbcli.Prelude.Sort.{insert_sorted, sort}
use hepta_dbcli.Sample.{member, range_from}
use hepta_dbcli.Sample.Picks.{AllBelow, DistinctNumbers}

abbrev AllAbove : ℕ → List ℕ → Type 0
AllAbove x [] = Unit
AllAbove x (y ∷ ys) = (x < y) × AllAbove x ys

abbrev pub Ascending : List ℕ → Type 0
Ascending [] = Unit
Ascending (x ∷ xs) = AllAbove x xs × Ascending xs

AllAbove-less : (x y : ℕ) (ys : List ℕ) → x < y → AllAbove y ys → AllAbove x ys
AllAbove-less x y [] h all = tt
AllAbove-less x y (z ∷ ys) h all = (omega (arith, all.0), AllAbove-less x y ys h all.1)

module _ (a : ℕ) where
  length-insert : (ys : List ℕ) → length (insert_sorted leb a ys) ≡ suc (length ys)
  unfolding insert_sorted
  length-insert [] = refl
  length-insert (b ∷ ys) =
      if-cases (λ (l : List ℕ). length l ≡ suc (length (b ∷ ys))) (leb a b) (λ _. refl)
        (λ _. ap suc (length-insert ys))

  member-insert :
      (x : ℕ) (ys : List ℕ) → member x (insert_sorted leb a ys) ≡ (a == x || member x ys)
  unfolding insert_sorted
  member-insert x [] = refl
  member-insert x (b ∷ ys) =
      if-cases (λ (l : List ℕ). member x l ≡ (a == x || (b == x || member x ys))) (leb a b)
        (λ _. refl)
        (λ _.
          ap (λ (r : Bool). b == x || r) (member-insert x ys)
          ∙ swapped (b == x) (a == x) (member x ys))
    where
      swapped : (s t u : Bool) → (s || (t || u)) ≡ (t || (s || u))
      swapped true true u = refl
      swapped true false u = refl
      swapped false t u = refl

  AllBelow-insert :
      (total : ℕ) (ys : List ℕ)
      → a < total
      → AllBelow total ys
      → AllBelow total (insert_sorted leb a ys)
  unfolding insert_sorted
  AllBelow-insert total [] h all = (h, tt)
  AllBelow-insert total (b ∷ ys) h all =
      if-cases (AllBelow total) (leb a b) (λ _. (h, all))
        (λ _. (all.0, AllBelow-insert total ys h all.1))

  AllAbove-insert :
      (x : ℕ) (ys : List ℕ) → x < a → AllAbove x ys → AllAbove x (insert_sorted leb a ys)
  unfolding insert_sorted
  AllAbove-insert x [] h all = (h, tt)
  AllAbove-insert x (b ∷ ys) h all =
      if-cases (AllAbove x) (leb a b) (λ _. (h, all)) (λ _. (all.0, AllAbove-insert x ys h all.1))

  Ascending-insert :
      (ys : List ℕ) → member a ys ≡ false → Ascending ys → Ascending (insert_sorted leb a ys)
  unfolding insert_sorted
  Ascending-insert [] new asc = (tt, tt)
  Ascending-insert (b ∷ ys) new asc =
      let parts = or_false (b == a) (member a ys) new in
      if-cases Ascending (leb a b)
        (λ e.
          let below : a < b = before a b e parts.0 in
          ((below, AllAbove-less a b ys below asc.0), asc))
        (λ e. (AllAbove-insert b ys (behind a b e) asc.0, Ascending-insert ys parts.1 asc.1))
    where
      before : (a b : ℕ) → leb a b ≡ true → (b == a) ≡ false → a < b
      before a b h k = ground arith

      behind : (a b : ℕ) → leb a b ≡ false → b < a
      behind a b h = ground arith

member-sort : (x : ℕ) (xs : List ℕ) → member x (sort leb xs) ≡ member x xs
unfolding sort
member-sort x [] = refl
member-sort x (a ∷ xs) =
    member-insert a x (sort leb xs) ∙ ap (λ (r : Bool). a == x || r) (member-sort x xs)

-- So many row numbers, in ascending order.
abbrev pub Selected : ℕ → ℕ → List ℕ → Type 0
Selected n total out = (length out ≡ n) × Ascending out × AllBelow total out

pub sort-Selected :
    (total : ℕ) (xs : List ℕ)
    → DistinctNumbers xs
    → AllBelow total xs
    → Selected (length xs) total (sort leb xs)
unfolding sort
sort-Selected total [] d all = (refl, tt, tt)
sort-Selected total (a ∷ xs) d all =
    let rest = sort-Selected total xs d.1 all.1 in
    (
      length-insert a (sort leb xs) ∙ ap suc rest.0,
      Ascending-insert a (sort leb xs) (member-sort a xs ∙ d.0) rest.1,
      AllBelow-insert a total (sort leb xs) all.0 rest.2,
    )

pub range_from-Selected : (total i n : ℕ) → i + n ≤ total → Selected n total (range_from i n)
range_from-Selected total i zero h = (refl, tt, tt)
range_from-Selected total i (suc n) h =
    let rest = range_from-Selected total (suc i) n (omega arith) in
    (ap suc rest.0, (above (suc i) n (omega arith), rest.1), (omega arith, rest.2))
  where
    above : (j n : ℕ) → i < j → AllAbove i (range_from j n)
    above j zero h = tt
    above j (suc n) h = (h, above (suc j) n (omega arith))

pub member-range_from : (x i n : ℕ) → i ≤ x → x < i + n → member x (range_from i n) ≡ true
member-range_from x i zero h k = absurd (omega arith)
member-range_from x i (suc n) h k = elim (Bool-cases (i == x)) [
  | inl e ↦ rw e refl
  | inr e ↦ rw e (member-range_from x (suc i) n (next i x e h) (omega arith))
]
  where
    next : (i x : ℕ) → (i == x) ≡ false → i ≤ x → suc i ≤ x
    next i x e h = ground arith

abbrev removed : ℕ → List ℕ → List ℕ
removed x [] = []
removed x (y ∷ ys) = if y == x then removed x ys else y ∷ removed x ys

removed-le : (x : ℕ) (ys : List ℕ) → length (removed x ys) ≤ length ys
removed-le x [] = omega arith
removed-le x (y ∷ ys) =
    if-cases (λ (l : List ℕ). length l ≤ suc (length ys)) (y == x)
      (λ _. omega (arith, removed-le x ys)) (λ _. omega (arith, removed-le x ys))

removed-lt : (x : ℕ) (ys : List ℕ) → member x ys ≡ true → length (removed x ys) < length ys
removed-lt x [] h = cc
removed-lt x (y ∷ ys) h = elim (Bool-cases (y == x)) [
  | inl e ↦ rw e (omega (arith, removed-le x ys))
  | inr e ↦ rw e (omega (arith, removed-lt x ys (rw e at h)))
]

removed-other :
    (x z : ℕ) (ys : List ℕ) → (x == z) ≡ false → member z ys ≡ true → member z (removed x ys) ≡ true
removed-other x z [] k h = cc
removed-other x z (y ∷ ys) k h = elim (Bool-cases (y == x)) [
  | inl e ↦ rw e (removed-other x z ys k (rw ((==_iff y x).0 e, k) at h))
  | inr e ↦ rw e (elim (Bool-cases (y == z)) [
    | inl f ↦ rw f refl
    | inr f ↦ rw f (removed-other x z ys k (rw f at h))
  ])
]

-- A list that has all numbers below a bound is as long as the bound at least.
pub all_below-length :
    (t : ℕ) (xs : List ℕ) → ((x : ℕ) → x < t → member x xs ≡ true) → t ≤ length xs
all_below-length zero xs h = omega arith
all_below-length (suc t) xs h = omega (
  arith,
  removed-lt t xs (h t (omega arith)),
  all_below-length t (removed t xs) (λ x k. removed-other t x xs (apart t x k) (h x (omega arith))),
)
  where
    apart : (t x : ℕ) → x < t → (t == x) ≡ false
    apart t x k = ground arith
