-- ===== src/RowDiff/Paging/Flat.antt =====
-- The specification of the paged merge: the merge of two whole lists of rows.
use hepta_dbcli.Prelude.{ℕ, List, [], ◌∷◌, Option, none, some}
use hepta_dbcli.Report.{Row, DiffRow}
use hepta_dbcli.RowDiff.{modified_row}
use hepta_dbcli.RowDiff.Paging.{
  RangeDiff, Verdict, left_first, right_first, alike, changed, only_left, only_right, both,
  add_rows,
}

module _ (arity : ℕ) (judge_rows : Row → Row → Option Verdict) where
  abbrev pub choose :
      Row
      → Row
      → Option Verdict
      → Option RangeDiff
      → Option RangeDiff
      → (List DiffRow → Option RangeDiff)
      → Option RangeDiff
  choose l r none on_left on_right on_both = none
  choose l r (some left_first) on_left on_right on_both = on_left
  choose l r (some right_first) on_left on_right on_both = on_right
  choose l r (some alike) on_left on_right on_both = on_both []
  choose l r (some changed) on_left on_right on_both = on_both (modified_row l r arity ∷ [])

  -- The row `l`, with `ls` behind it, against the right rows; `next` merges `ls`.
  abbrev pub against :
      (List Row → RangeDiff → Option RangeDiff)
      → Row
      → List Row
      → List Row
      → RangeDiff
      → Option RangeDiff
  against next l ls [] out = some (add_rows (only_left arity) (l ∷ ls) out)
  against next l ls (r ∷ rs) out =
      choose l r (judge_rows l r) (next (r ∷ rs) (only_left arity l out))
        (against next l ls rs (only_right arity r out)) (λ new. next rs (both arity new out))

  abbrev pub flat_merge : List Row → List Row → RangeDiff → Option RangeDiff
  flat_merge [] rs out = some (add_rows (only_right arity) rs out)
  flat_merge (l ∷ ls) rs out = against (flat_merge ls) l ls rs out
