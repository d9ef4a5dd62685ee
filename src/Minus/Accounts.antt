-- ===== src/Minus/Accounts.antt =====
-- The rows of the server's answer against the rows of the report.
use mathlib.Core.Path.{subst}
use hepta_dbcli.Prelude.{
  ℕ, suc, ◌+◌, ltb, ◌==◌, Bool, true, false, not, List, [], ◌∷◌, ◌++◌, map, if◌then◌else◌, Option,
  none, some, length, ◌≡◌, refl, sym, ap, ◌∙◌, arith, Bool-cases, if-cases, if-true, if-false, inl,
  inr,
}
use hepta_dbcli.Prelude.Assoc.{find, upsert}
use hepta_dbcli.Prelude.Sort.{count_if}
use hepta_dbcli.Text.{Text, text_eq}
use hepta_dbcli.Report.{Row, DiffKey, DiffRow}
use hepta_dbcli.Minus.{
  Classified, ok, err, Group, Groups, new_group, taken, is_taken, put_side, put_row, on_side,
  side_of, expected, add_row, and_then, add_rows, group_row, rows_of, classify_minus_rows,
}
use hepta_dbcli.Minus.Answer.{shown, reported, answer_of, EachFits, side_of-says_left}

module _ (p : Bool × Row → Bool) where
  abbrev held : Bool → Option Row → ℕ
  held is_left o = count_if p (shown is_left o)

  abbrev both : Group → ℕ
  both g = held true g.left + held false g.right

  abbrev total : Groups → ℕ
  total [] = 0
  total ((k, g) ∷ groups) = both g + total groups

  abbrev one : Bool → Row → ℕ
  one is_left r = held is_left (some r)

  held-put_side :
      (b : Bool) (r : Row) (g : Group)
      → taken b g ≡ false
      → both (put_side b r g) ≡ one b r + both g
  held-put_side true r g h = free g.left h
    where
      free :
          (o : Option Row)
          → is_taken o ≡ false
          → one true r + held false g.right ≡ one true r + (held true o + held false g.right)
      free none e = omega arith
      free (some q) e = absurd (ground arith)
  held-put_side false r g h = free g.right h
    where
      free :
          (o : Option Row)
          → is_taken o ≡ false
          → held true g.left + one false r ≡ one false r + (held true g.left + held false o)
      free none e = omega arith
      free (some q) e = absurd (ground arith)

  total-upsert :
      (b : Bool) (rk : DiffKey) (r : Row) (k : Text) (groups : Groups)
      → taken b (new_group rk (find text_eq groups k)) ≡ false
      → total (upsert text_eq (λ o. put_side b r (new_group rk o)) k groups)
        ≡ one b r + total groups
  unfolding find upsert
  total-upsert b rk r k [] h = omega (arith, held-put_side b r (new_group rk none) h)
  total-upsert b rk r k ((j, g) ∷ groups) h = elim (Bool-cases (text_eq j k)) [
    | inl e ↦ rw e (
        omega (
          arith,
          held-put_side b r g
              (sym (ap (λ (o : Option Group). taken b (new_group rk o)) (if-true _ _ e)) ∙ h),
        ))
    | inr e ↦ rw e (
        omega (
          arith,
          total-upsert b rk r k groups
              (sym (ap (λ (o : Option Group). taken b (new_group rk o)) (if-false _ _ e)) ∙ h),
        ))
  ]

  -- The groups hold so many, unless there is an error.
  abbrev Grows : ℕ → Classified Groups → Type 0
  Grows n (ok groups) = total groups ≡ n
  Grows n (err e) = Unit {0}

  put_row-Grows :
      (groups : Groups) (b : Bool) (rk : DiffKey) (r : Row) (k : Text)
      → Grows (one b r + total groups) (put_row groups b rk r k)
  unfolding put_row
  put_row-Grows groups b rk r k =
      if-cases (Grows (one b r + total groups)) (taken b (new_group rk (find text_eq groups k)))
        (λ e. tt) (λ e. total-upsert b rk r k groups e)

  module _ (key_len value_len : ℕ) where
    abbrev count : Row → ℕ
    count row = if p (answer_of (key_len + value_len) row) then 1 else 0

    on_side-Grows :
        (groups : Groups) (row : Row) (o : Option Bool)
        → side_of row ≡ o
        → Grows (count row + total groups) (on_side key_len value_len groups row o)
    unfolding on_side
    on_side-Grows groups row none e = tt
    on_side-Grows groups row (some b) e =
        rw (side_of-says_left row b e) (put_row-Grows groups b _ _ _)

    add_row-Grows :
        (groups : Groups) (row : Row)
        → Grows (count row + total groups) (add_row key_len value_len groups row)
    unfolding add_row
    add_row-Grows groups row =
        if-cases (Grows (count row + total groups)) (ltb (length row) (expected key_len value_len))
          (λ e. tt)
          (λ e.
            if-cases (Grows (count row + total groups))
              (not (length row == expected key_len value_len)) (λ f. tt)
              (λ f. on_side-Grows groups row (side_of row) refl))

    abbrev counts : List Row → ℕ
    counts rows = count_if p (map (answer_of (key_len + value_len)) rows)

    counts-cons : (row : Row) (rows : List Row) → counts (row ∷ rows) ≡ count row + counts rows
    counts-cons row rows = step (p (answer_of (key_len + value_len) row)) (counts rows)
      where
        step : (b : Bool) (n : ℕ) → (if b then suc n else n) ≡ (if b then 1 else 0) + n
        step true n = omega arith
        step false n = omega arith

    add_rows-Grows :
        (rows : List Row) (groups : Groups)
        → Grows (counts rows + total groups) (add_rows key_len value_len groups rows)
    unfolding add_rows
    add_rows-Grows [] groups = omega arith
    add_rows-Grows (row ∷ rows) groups =
        step (add_row key_len value_len groups row) (add_row-Grows groups row) (add_rows-Grows rows)
      where
        step :
            (c : Classified Groups)
            → Grows (count row + total groups) c
            → ((next : Groups)
                → Grows (counts rows + total next) (add_rows key_len value_len next rows))
            → Grows
                (counts (row ∷ rows) + total groups)
                (and_then key_len value_len c (λ next. add_rows key_len value_len next rows))
        step (err e) h k = tt
        step (ok next) h k =
            subst (λ (n : ℕ). Grows n (add_rows key_len value_len next rows)) (shift h) (k next)
          where
            shift :
                total next ≡ count row + total groups
                → counts rows + total next ≡ counts (row ∷ rows) + total groups
            shift e = omega (arith, e, counts-cons row rows)

    -- The rows of one group and of those behind it.
    reported-group_row :
        (k : DiffKey) (l r : Option Row) (rest : List DiffRow)
        → count_if p (reported (group_row key_len value_len k l r ++ rest))
          ≡ held true l + held false r + count_if p (reported rest)
    reported-group_row k none none rest = omega arith
    reported-group_row k (some l) none rest = step (p (true, l)) (count_if p (reported rest))
      where
        step : (b : Bool) (n : ℕ) → (if b then suc n else n) ≡ (if b then suc 0 else 0) + 0 + n
        step true n = omega arith
        step false n = omega arith
    reported-group_row k none (some r) rest = step (p (false, r)) (count_if p (reported rest))
      where
        step : (b : Bool) (n : ℕ) → (if b then suc n else n) ≡ 0 + (if b then suc 0 else 0) + n
        step true n = omega arith
        step false n = omega arith
    reported-group_row k (some l) (some r) rest =
        step (p (true, l)) (p (false, r)) (count_if p (reported rest))
      where
        step :
            (b c : Bool) (n : ℕ)
            → (if b then suc (if c then suc n else n) else (if c then suc n else n))
              ≡ (if b then suc 0 else 0) + (if c then suc 0 else 0) + n
        step true true n = omega arith
        step true false n = omega arith
        step false true n = omega arith
        step false false n = omega arith

    reported-rows_of :
        (groups : Groups) → count_if p (reported (rows_of key_len value_len groups)) ≡ total groups
    reported-rows_of [] = refl
    reported-rows_of ((k, g) ∷ groups) =
        reported-group_row g.key g.left g.right (rows_of key_len value_len groups)
        ∙ ap (λ (n : ℕ). both g + n) (reported-rows_of groups)

module _ (key_len value_len : ℕ) where
  rows_of-EachFits : (groups : Groups) → EachFits (rows_of key_len value_len groups)
  rows_of-EachFits [] = tt
  rows_of-EachFits ((k, g) ∷ groups) =
      row g.left g.right (rows_of key_len value_len groups) (rows_of-EachFits groups)
    where
      row :
          (l r : Option Row) (rest : List DiffRow)
          → EachFits rest
          → EachFits (group_row key_len value_len g.key l r ++ rest)
      row none none rest h = h
      row (some l) none rest h = ((refl, refl), h)
      row none (some r) rest h = ((refl, refl), h)
      row (some l) (some r) rest h = ((refl, refl), h)

-- The classification of an answer against its rows.
abbrev Accounts : (Bool × Row → Bool) → ℕ → List Row → Classified (List DiffRow) → Type 0
Accounts p columns rows (ok out) =
    (count_if p (reported out) ≡ count_if p (map (answer_of columns) rows)) × EachFits out
Accounts p columns rows (err m) = Unit {0}

-- When the classification succeeds, the rows that the report shows on the left and on the right are the
-- rows of the answer that say "L" and those that do not, with the cells of their columns: every test
-- counts as many of the one as of the other. And the status of each row of the report tells on which sides
-- it shows one.
pub classify_minus_rows-reported :
    (p : Bool × Row → Bool) (key_len value_len : ℕ) (rows : List Row) (out : List DiffRow)
    → classify_minus_rows key_len value_len rows ≡ ok out
    → (count_if p (reported out) ≡ count_if p (map (answer_of (key_len + value_len)) rows))
      × EachFits out
unfolding classify_minus_rows
classify_minus_rows-reported p key_len value_len rows out e =
    subst (Accounts p (key_len + value_len) rows) e
      (finish (add_rows key_len value_len [] rows) (add_rows-Grows p key_len value_len rows []))
  where
    finish :
        (c : Classified Groups)
        → Grows p (counts p key_len value_len rows + 0) c
        → Accounts p
            (key_len + value_len)
            rows
            (and_then key_len value_len c (λ groups. ok (rows_of key_len value_len groups)))
    finish (err m) h = tt
    finish (ok groups) h = (
      omega (arith, reported-rows_of p key_len value_len groups, h),
      rows_of-EachFits key_len value_len groups,
    )
