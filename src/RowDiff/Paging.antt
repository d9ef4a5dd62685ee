-- ===== src/RowDiff/Paging.antt =====
-- The merge of two scans that arrive page by page: `row_level_diff`, `drain` and
-- `PageCursor::next_page` of dbcli/src/delta_diff/rowdiff.rs.
pub mod Flat
pub mod Pages
pub mod Refines
use hepta_dbcli.Prelude.{
  ℕ, zero, suc, ◌+◌, max, ltb, leb, ◌==◌, Bool, true, false, not, ◌&&◌, ◌||◌, List, [], ◌∷◌, ◌++◌,
  Option, none, some, take, drop, length, if◌then◌else◌,
}
use hepta_dbcli.Decimals.{DecimalOps, Order, less, same_place, greater}
use hepta_dbcli.Text.{Text, codes}
use hepta_dbcli.Report.{Row, DiffRow, missing_left, missing_right}
use hepta_dbcli.Naive.{combine}
use hepta_dbcli.RowDiff.{row_key_tuple, cmp_key, row_values_equal, diff_row_n, modified_row}

abbrev pub page_size : ℕ
page_size = 8192

-- `E` is the type of the errors of a connection.
module _ (E : Type 0) where
  -- The answer to one page query.
  pub data Reply : Type 0 where
    rows : List Row → Reply
    failed : E → Reply

  -- What a side's connection answers to the page query behind the last key.
  abbrev pub Scan : Type 0
  Scan = Option Row → Reply

pub record Cursor : Type 0 where
  pub last_key : Option Row
  pub exhausted : Bool

abbrev pub new_cursor : Cursor
new_cursor = record { last_key = none; exhausted = false }

abbrev pub last_row : List Row → Option Row
last_row [] = none
last_row (r ∷ []) = some r
last_row (r ∷ s ∷ rs) = last_row (s ∷ rs)

abbrev pub key_after : ℕ → Option Row → Option Row → Option Row
key_after arity before none = before
key_after arity before (some r) = some (row_key_tuple r arity)

-- The cursor behind a page.
abbrev pub turned : ℕ → Cursor → List Row → Cursor
turned arity cur page = record {
  last_key = key_after arity cur.last_key (last_row page);
  exhausted = if ltb (length page) page_size then true else cur.exhausted;
}

pub record RangeDiff : Type 0 where
  pub found : List DiffRow
  pub left_count : ℕ
  pub right_count : ℕ

-- A run's result: the differences and the number of queries, an error of a connection, an index out
-- of bounds, or no fuel left (which the theorems exclude).
pub data Outcome (E : Type 0) : Type 0 where
  done : RangeDiff → ℕ → Outcome E
  error : E → Outcome E
  panic : Outcome E
  out_of_fuel : Outcome E

-- What the keys and the values of two rows say.
pub data Verdict : Type 0 where
  left_first : Verdict
  right_first : Verdict
  alike : Verdict
  changed : Verdict

module _ (ops : DecimalOps) (arity : ℕ) (numeric : List Bool) where
  abbrev by_order : Row → Row → Order → Option Verdict
  unfolding row_values_equal
  by_order l r less = some left_first
  by_order l r greater = some right_first
  by_order l r same_place =
      if leb arity (length l) && leb arity (length r)
      then some (
          if row_values_equal ops (drop arity l) (drop arity r) (drop arity numeric)
          then alike
          else changed)
      else none

  -- `none` is a slice out of bounds.
  unfoldable pub judge : Row → Row → Option Verdict
  unfolding cmp_key by_order
  judge l r =
      if leb arity (length numeric)
      then by_order l r
          (cmp_key ops (row_key_tuple l arity) (row_key_tuple r arity) (take arity numeric))
      else none

-- The inner loop of `drain`.
abbrev pub add_rows : (Row → RangeDiff → RangeDiff) → List Row → RangeDiff → RangeDiff
add_rows add [] out = out
add_rows add (r ∷ rs) out = add_rows add rs (add r out)

abbrev pub on_reply : {E : Type 0} → Reply E → (List Row → Outcome E) → Outcome E
on_reply (rows page) next = next page
on_reply (failed e) next = error e

module _ (arity : ℕ) where
  abbrev pub only_left : Row → RangeDiff → RangeDiff
  only_left l out = record out {
    found = out.found ++ diff_row_n l arity true missing_right ∷ [];
    left_count = suc out.left_count;
  }

  abbrev pub only_right : Row → RangeDiff → RangeDiff
  only_right r out = record out {
    found = out.found ++ diff_row_n r arity false missing_left ∷ [];
    right_count = suc out.right_count;
  }

  abbrev pub both : List DiffRow → RangeDiff → RangeDiff
  both new out = record {
    found = out.found ++ new;
    left_count = suc out.left_count;
    right_count = suc out.right_count;
  }

  unfoldable pub drain :
      {E : Type 0}
      → ℕ
      → (Row → RangeDiff → RangeDiff)
      → Scan E
      → List Row
      → Cursor
      → RangeDiff
      → ℕ
      → Outcome E
  drain zero add scan buf cur out queries = out_of_fuel
  drain (suc fuel) add scan buf cur out queries =
      let out' = add_rows add buf out in
      let more =
        on_reply (scan cur.last_key)
          (λ page. drain fuel add scan page (turned arity cur page) out' (suc queries)) in
      if cur.exhausted then done out' queries else more

  module _ {E : Type 0} (judge_rows : Row → Row → Option Verdict) where
    abbrev pub on_verdict :
        Row → Row → Option Verdict → Outcome E → Outcome E → (List DiffRow → Outcome E) → Outcome E
    on_verdict l r none on_left on_right on_both = panic
    on_verdict l r (some left_first) on_left on_right on_both = on_left
    on_verdict l r (some right_first) on_left on_right on_both = on_right
    on_verdict l r (some alike) on_left on_right on_both = on_both []
    on_verdict l r (some changed) on_left on_right on_both = on_both (modified_row l r arity ∷ [])

    -- The loop. A buffer is what is left of it behind its index.
    unfoldable pub merge_loop :
        ℕ → Scan E → Scan E → List Row → Cursor → List Row → Cursor → RangeDiff → ℕ → Outcome E
    unfolding drain
    merge_loop zero lscan rscan lbuf lcur rbuf rcur out queries = out_of_fuel
    merge_loop (suc fuel) lscan rscan [] lcur rbuf rcur out queries =
        let more = on_reply (lscan lcur.last_key) (λ page.
          merge_loop fuel lscan rscan page (turned arity lcur page) rbuf rcur out (suc queries)) in
        if lcur.exhausted then drain fuel only_right rscan rbuf rcur out queries else more
    merge_loop (suc fuel) lscan rscan (l ∷ lbuf) lcur [] rcur out queries =
        let more = on_reply (rscan rcur.last_key) (λ page.
          merge_loop fuel lscan rscan (l ∷ lbuf) lcur page (turned arity rcur page) out
            (suc queries)) in
        if rcur.exhausted then drain fuel only_left lscan (l ∷ lbuf) lcur out queries else more
    merge_loop (suc fuel) lscan rscan (l ∷ lbuf) lcur (r ∷ rbuf) rcur out queries =
        let go = merge_loop fuel lscan rscan in
        on_verdict l r (judge_rows l r) (go lbuf lcur (r ∷ rbuf) rcur (only_left l out) queries)
          (go (l ∷ lbuf) lcur rbuf rcur (only_right r out) queries)
          (λ new. go lbuf lcur rbuf rcur (both new out) queries)

    -- The first page of each side, then the loop.
    unfoldable pub start_merge : ℕ → Scan E → Scan E → Outcome E
    unfolding merge_loop
    start_merge fuel lscan rscan = on_reply (lscan none) (λ lpage. on_reply (rscan none) (λ rpage.
        merge_loop fuel lscan rscan lpage (turned arity new_cursor lpage) rpage
          (turned arity new_cursor rpage) (record { found = []; left_count = 0; right_count = 0 })
          2))

-- `lcols` and `rcols` are the numbers of columns that the specs select; `config` makes an error.
unfoldable pub row_level_diff :
    {E : Type 0}
    → DecimalOps
    → (Text → E)
    → ℕ
    → Scan E
    → Scan E
    → ℕ
    → ℕ
    → ℕ
    → List Bool
    → List Bool
    → Outcome E
unfolding start_merge judge
row_level_diff ops config fuel lscan rscan lcols rcols key_arity lnum rnum =
    let arity = max key_arity 1 in
    if not (length lnum == lcols) || not (length rnum == rcols) || not (length lnum == length rnum)
    then error
        (config (codes "delta-diff: row comparison type flags do not align with selected columns"))
    else start_merge arity (judge ops arity (combine lnum rnum)) fuel lscan rscan
