-- ===== src/Sample/Histogram/Ordered.antt =====
-- The order of the columns in the histogram of dbcli/src/delta_diff/sample.rs.
use hepta_dbcli.Prelude.{
  ◌<◌, ◌==◌, ltb, Bool, true, false, ◌&&◌, ◌||◌, List, [], ◌∷◌, ◌≡◌, refl, arith, Bool-cases, inl,
  inr, ◌⊎◌, length, if◌then◌else◌,
}
use hepta_dbcli.Prelude.Sort.{insert_sorted, sort}
use hepta_dbcli.Text.{Text}
use hepta_dbcli.Report.{text_le}
use hepta_dbcli.Sample.Histogram.{ColumnChangeCount, by_count}

-- The column with the higher count comes first, and of two with the same count the one whose name does.
abbrev pub Before : ColumnChangeCount → ColumnChangeCount → Type 0
Before a b = (b.count < a.count) ⊎ ((a.count ≡ b.count) × (text_le a.name b.name ≡ true))

abbrev pub FirstAfter : ColumnChangeCount → List ColumnChangeCount → Type 0
FirstAfter a [] = Unit {0}
FirstAfter a (b ∷ cs) = Before a b

abbrev pub Ordered : List ColumnChangeCount → Type 0
Ordered [] = Unit {0}
Ordered (a ∷ cs) = FirstAfter a cs × Ordered cs

text_le-total : (s t : Text) → text_le s t ≡ false → text_le t s ≡ true
unfolding text_le
text_le-total [] t h = cc
text_le-total (a ∷ s) [] h = refl
text_le-total (a ∷ s) (b ∷ t) h = elim (Bool-cases (a == b)) [
  | inl e ↦ let same = text_le-total s t (rw e at h) in ground arith
  | inr e ↦ ground arith
]

by_count-Before : (a b : ColumnChangeCount) → by_count a b ≡ true → Before a b
unfolding by_count
by_count-Before a b h = higher (Bool-cases (ltb b.count a.count))
  where
    higher : ((ltb b.count a.count ≡ true) ⊎ (ltb b.count a.count ≡ false)) → Before a b
    higher (inl e) = inl (ground arith)
    higher (inr e) = inr (ground arith, both (ltb b.count a.count) (a.count == b.count) _ e h)
      where
        both : (x y z : Bool) → x ≡ false → (x || y && z) ≡ true → z ≡ true
        both true y z p q = cc
        both false true z p q = q
        both false false z p q = cc

by_count-After : (a b : ColumnChangeCount) → by_count a b ≡ false → Before b a
unfolding by_count
by_count-After a b h = elim (Bool-cases (a.count == b.count)) [
  | inl e ↦ inr (ground arith, text_le-total a.name b.name (ground arith))
  | inr e ↦ inl (ground arith)
]

insert_sorted-first :
    (c a : ColumnChangeCount) (ys : List ColumnChangeCount)
    → Before c a
    → FirstAfter c ys
    → FirstAfter c (insert_sorted by_count a ys)
unfolding insert_sorted
insert_sorted-first c a [] h k = h
insert_sorted-first c a (b ∷ ys) h k = branch (by_count a b)
  where
    branch : (t : Bool) → FirstAfter c (if t then a ∷ b ∷ ys else b ∷ insert_sorted by_count a ys)
    branch true = h
    branch false = k

insert_sorted-Ordered :
    (a : ColumnChangeCount) (ys : List ColumnChangeCount)
    → Ordered ys
    → Ordered (insert_sorted by_count a ys)
unfolding insert_sorted
insert_sorted-Ordered a [] h = (tt, tt)
insert_sorted-Ordered a (b ∷ ys) h = elim (Bool-cases (by_count a b)) [
  | inl e ↦ rw e (by_count-Before a b e, h)
  | inr e ↦
      rw e (insert_sorted-first b a ys (by_count-After a b e) h.0, insert_sorted-Ordered a ys h.1)
]

pub sort-Ordered : (xs : List ColumnChangeCount) → Ordered (sort by_count xs)
unfolding sort
sort-Ordered [] = tt
sort-Ordered (a ∷ xs) = insert_sorted-Ordered a (sort by_count xs) (sort-Ordered xs)

insert_sorted-some :
    (a : ColumnChangeCount) (ys : List ColumnChangeCount) → 0 < length (insert_sorted by_count a ys)
unfolding insert_sorted
insert_sorted-some a [] = omega arith
insert_sorted-some a (b ∷ ys) = branch (by_count a b)
  where
    branch : (t : Bool) → 0 < length (if t then a ∷ b ∷ ys else b ∷ insert_sorted by_count a ys)
    branch true = omega arith
    branch false = omega arith

pub sort-some :
    (a : ColumnChangeCount) (xs : List ColumnChangeCount) → 0 < length (sort by_count (a ∷ xs))
unfolding sort
sort-some a xs = insert_sorted-some a (sort by_count xs)
