-- ===== src/RowDiff/Paging/Refines.antt =====
-- The paged merge against the merge of the whole lists.
use hepta_dbcli.Prelude.{
  ℕ, zero, suc, ◌+◌, ◌≤◌, max, ◌==◌, not, ◌||◌, Bool, false, List, [], ◌∷◌, ◌++◌, Option, none,
  some, length, length-append, ◌≡◌, refl, ap, ◌∙◌, arith, if-true, if-false,
}
use hepta_dbcli.Decimals.{DecimalOps}
use hepta_dbcli.Text.{Text}
use hepta_dbcli.Naive.{combine}
use hepta_dbcli.Report.{Row, DiffRow}
use hepta_dbcli.RowDiff.{modified_row}
use hepta_dbcli.RowDiff.Paging.{
  Reply, judge, row_level_diff, Scan, Cursor, new_cursor, turned, RangeDiff, Outcome, done, panic,
  add_rows, on_reply, on_verdict, merge_loop, start_merge, Verdict, left_first, right_first, alike,
  changed, only_left, only_right, both,
}
use hepta_dbcli.RowDiff.Paging.Flat.{choose, flat_merge}
use hepta_dbcli.RowDiff.Paging.Pages.{Serves, ended, served, drain-Serves}

-- The result of a run that has asked for `queries` pages.
abbrev pub outcome_of : {E : Type 0} → Option RangeDiff → ℕ → Outcome E
outcome_of none queries = panic
outcome_of (some out) queries = done out queries

none_left : (q n : ℕ) → q + n ≡ q + (0 + n)
none_left q n = omega arith

none_right : (q m : ℕ) → q + m ≡ q + (m + 0)
none_right q m = omega arith

one_page : (q m n : ℕ) → suc q + (m + n) ≡ q + (suc m + n)
one_page q m n = omega arith

other_page : (q m n : ℕ) → suc q + (m + n) ≡ q + (m + suc n)
other_page q m n = omega arith

module _ {E : Type 0} (arity : ℕ) (judge_rows : Row → Row → Option Verdict) where
  on_verdict-choose :
      (l r : Row) (o : Option Verdict) (queries : ℕ) {a b : Outcome E}
      {c : List DiffRow → Outcome E} (x y : Option RangeDiff) (z : List DiffRow → Option RangeDiff)
      → a ≡ outcome_of x queries
      → b ≡ outcome_of y queries
      → ((new : List DiffRow) → c new ≡ outcome_of (z new) queries)
      → on_verdict arity judge_rows l r o a b c
        ≡ outcome_of (choose arity judge_rows l r o x y z) queries
  on_verdict-choose l r none queries x y z p q s = refl
  on_verdict-choose l r (some left_first) queries x y z p q s = p
  on_verdict-choose l r (some right_first) queries x y z p q s = q
  on_verdict-choose l r (some alike) queries x y z p q s = s []
  on_verdict-choose l r (some changed) queries x y z p q s = s (modified_row l r arity ∷ [])

  pub merge_loop-flat_merge :
      (fuel : ℕ) (lscan rscan : Scan E) (lbuf : List Row) (lcur : Cursor) (rbuf : List Row)
      (rcur : Cursor) (out : RangeDiff) (queries : ℕ) {ls rs : List Row} {m n : ℕ}
      → Serves arity lscan lcur ls m
      → Serves arity rscan rcur rs n
      → length lbuf + length ls + (length rbuf + length rs) + (m + n) + 2 ≤ fuel
      → merge_loop arity judge_rows fuel lscan rscan lbuf lcur rbuf rcur out queries
        ≡ outcome_of (flat_merge arity judge_rows (lbuf ++ ls) (rbuf ++ rs) out) (queries + (m + n))
  unfolding merge_loop
  merge_loop-flat_merge zero lscan rscan lbuf lcur rbuf rcur out queries s t h =
      absurd (omega arith)
  merge_loop-flat_merge (suc fuel) lscan rscan [] lcur rbuf rcur out queries {rs = rs} {n = n}
        (ended e) t h =
      if-true _ _ e
      ∙ drain-Serves arity fuel (only_right arity) rscan rbuf rcur out queries t (omega arith)
      ∙ ap (done (add_rows (only_right arity) (rbuf ++ rs) out)) (none_left queries n)
  merge_loop-flat_merge (suc fuel) lscan rscan [] lcur rbuf rcur out queries {rs = rs} {n = n}
        (served {rest = rest} {n = m} p e asked s) t h =
      if-false _ _ e
      ∙ ap
          (λ (r : Reply E). on_reply r (λ page.
            merge_loop arity judge_rows fuel lscan rscan page (turned arity lcur page) rbuf rcur out
              (suc queries)))
          asked
      ∙ merge_loop-flat_merge fuel lscan rscan p (turned arity lcur p) rbuf rcur out (suc queries) s
          t (omega (arith, length-append p rest))
      ∙ ap (outcome_of (flat_merge arity judge_rows (p ++ rest) (rbuf ++ rs) out))
          (one_page queries m n)
  merge_loop-flat_merge (suc fuel) lscan rscan (l ∷ lbuf) lcur [] rcur out queries {ls = ls} {m = m}
        s (ended e) h =
      if-true _ _ e
      ∙ drain-Serves arity fuel (only_left arity) lscan (l ∷ lbuf) lcur out queries s (omega arith)
      ∙ ap (done (add_rows (only_left arity) (l ∷ (lbuf ++ ls)) out)) (none_right queries m)
  merge_loop-flat_merge (suc fuel) lscan rscan (l ∷ lbuf) lcur [] rcur out queries {ls = ls} {m = m}
        s (served {rest = rest} {n = n} p e asked t) h =
      if-false _ _ e
      ∙ ap
          (λ (r : Reply E). on_reply r (λ page.
            merge_loop arity judge_rows fuel lscan rscan (l ∷ lbuf) lcur page
              (turned arity rcur page) out (suc queries)))
          asked
      ∙ merge_loop-flat_merge fuel lscan rscan (l ∷ lbuf) lcur p (turned arity rcur p) out
          (suc queries) s t (omega (arith, length-append p rest))
      ∙ ap (outcome_of (flat_merge arity judge_rows (l ∷ (lbuf ++ ls)) (p ++ rest) out))
          (other_page queries m n)
  merge_loop-flat_merge (suc fuel) lscan rscan (l ∷ lbuf) lcur (r ∷ rbuf) rcur out queries {m = m}
        {n = n} s t h =
      on_verdict-choose l r (judge_rows l r) (queries + (m + n)) _ _ _
        (merge_loop-flat_merge fuel lscan rscan lbuf lcur (r ∷ rbuf) rcur (only_left arity l out)
          queries s t (omega arith))
        (merge_loop-flat_merge fuel lscan rscan (l ∷ lbuf) lcur rbuf rcur (only_right arity r out)
          queries s t (omega arith))
        (λ new.
          merge_loop-flat_merge fuel lscan rscan lbuf lcur rbuf rcur (both arity new out) queries s
            t (omega arith))

abbrev pub no_differences : RangeDiff
no_differences = record { found = []; left_count = 0; right_count = 0 }

module _ {E : Type 0} (arity : ℕ) (judge_rows : Row → Row → Option Verdict) where
  start_merge-flat_merge :
      (fuel : ℕ) (lscan rscan : Scan E) {ls rs : List Row} {m n : ℕ}
      → Serves arity lscan new_cursor ls m
      → Serves arity rscan new_cursor rs n
      → length ls + length rs + (m + n) + 2 ≤ fuel
      → start_merge arity judge_rows fuel lscan rscan
        ≡ outcome_of (flat_merge arity judge_rows ls rs no_differences) (m + n)
  unfolding start_merge
  start_merge-flat_merge fuel lscan rscan (ended e) t h = absurd (ground arith)
  start_merge-flat_merge fuel lscan rscan (served p e asked s) (ended f) h = absurd (ground arith)
  start_merge-flat_merge fuel lscan rscan (served {rest = ls} {n = m} p e asked s)
        (served {rest = rs} {n = n} q f answered t) h =
      ap (λ (r : Reply E). on_reply r (λ lpage. on_reply (rscan none) (λ rpage. went lpage rpage)))
        asked
      ∙ ap (λ (r : Reply E). on_reply r (λ rpage. went p rpage)) answered
      ∙ merge_loop-flat_merge arity judge_rows fuel lscan rscan p (turned arity new_cursor p) q
          (turned arity new_cursor q) no_differences 2 s t
          (omega (arith, length-append p ls, length-append q rs))
      ∙ ap (outcome_of (flat_merge arity judge_rows (p ++ ls) (q ++ rs) no_differences)) two_pages
    where
      went : List Row → List Row → Outcome E
      went lpage rpage =
          merge_loop arity judge_rows fuel lscan rscan lpage (turned arity new_cursor lpage) rpage
            (turned arity new_cursor rpage) no_differences 2

      two_pages : 2 + (m + n) ≡ suc m + suc n
      two_pages = omega arith

-- When the flags fit the columns, and the pages of each side come without an error and end, the
-- comparison of two paged scans is the merge of the two whole lists of rows, with every page asked
-- for once; fuel for every row, every page and two more turns is enough.
pub row_level_diff-flat_merge :
    {E : Type 0} (ops : DecimalOps) (config : Text → E) (fuel : ℕ) (lscan rscan : Scan E)
    (lcols rcols key_arity : ℕ) (lnum rnum : List Bool) (ls rs : List Row) (m n : ℕ)
    → length lnum ≡ lcols
    → length rnum ≡ rcols
    → length lnum ≡ length rnum
    → Serves (max key_arity 1) lscan new_cursor ls m
    → Serves (max key_arity 1) rscan new_cursor rs n
    → length ls + length rs + (m + n) + 2 ≤ fuel
    → row_level_diff ops config fuel lscan rscan lcols rcols key_arity lnum rnum
      ≡ outcome_of
          (flat_merge
            (max key_arity 1)
            (judge ops (max key_arity 1) (combine lnum rnum))
            ls
            rs
            no_differences)
          (m + n)
unfolding row_level_diff
row_level_diff-flat_merge ops config fuel lscan rscan lcols rcols key_arity lnum rnum ls rs m n a b
      c s t h =
    if-false _ _ (aligned (length lnum) (length rnum) lcols rcols a b c)
    ∙ start_merge-flat_merge (max key_arity 1) (judge ops (max key_arity 1) (combine lnum rnum))
        fuel lscan rscan s t h
  where
    aligned :
        (x y p q : ℕ)
        → x ≡ p
        → y ≡ q
        → x ≡ y
        → (not (x == p) || not (y == q) || not (x == y)) ≡ false
    aligned x y p q a b c = ground arith
