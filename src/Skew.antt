-- ===== src/Skew.antt =====
-- The point queries of a small table against a large one, dbcli/src/delta_diff/keyed_diff.rs.
pub mod Accounts
mod Examples
use hepta_dbcli.Prelude.{
  ℕ, zero, suc, ◌+◌, ◌-◌, ◌/◌, min, max, ltb, leb, ◌==◌, Bool, true, false, not, ◌&&◌, ◌||◌, List,
  [], ◌∷◌, ◌++◌, Option, none, some, take, drop, length, if◌then◌else◌,
}
use hepta_dbcli.Decimals.{DecimalOps, Order, less, same_place, greater}
use hepta_dbcli.Text.{Text, codes}
use hepta_dbcli.Report.{Row, DiffRow, DiffStatus, missing_left, missing_right, modified, digits}
use hepta_dbcli.RowDiff.{
  row_key_tuple, cmp_key, row_values_equal, diff_key, diff_row_n, modified_row,
}
use hepta_dbcli.RowDiff.Paging.{Verdict, left_first, right_first, alike, changed}

abbrev pub point_query_max_keys : ℕ
point_query_max_keys = 1048576

abbrev pub point_query_literal_budget : ℕ
point_query_literal_budget = 1000

pub data SkewRoute : Type 0 where
  per_bucket : SkewRoute
  shared_scan : SkewRoute
  point_query : Bool → SkewRoute

-- `big / 8 >= small`
abbrev pub is_skewed : ℕ → ℕ → Bool
is_skewed big small = ltb 0 small && leb small (big / 8)

unfoldable pub skew_route : ℕ → ℕ → ℕ → Bool → Bool → SkewRoute
skew_route left_total right_total fetch_all_threshold summary_only both_keys_unique =
    let big_is_left = leb right_total left_total in
    let big = if big_is_left then left_total else right_total in
    let small = if big_is_left then right_total else left_total in
    if leb big fetch_all_threshold || not (is_skewed big small)
    then per_bucket
    else if summary_only && both_keys_unique && leb small point_query_max_keys
    then point_query big_is_left
    else shared_scan

unfoldable pub point_query_chunk_rows : ℕ → ℕ
point_query_chunk_rows arity = max (point_query_literal_budget / max arity 1) 1

pub record PointQueryMerge : Type 0 where
  pub rows : List DiffRow
  pub missing_big : ℕ
  pub unpaired_hits : ℕ
  pub extra_warnings : List Text

-- The rows, and the number of the small side's rows that were paired; `none` is a slice out of
-- bounds.
abbrev pub Paired : Type 0
Paired = List DiffRow × ℕ

abbrev pub push_new : List DiffRow → ℕ → Option Paired → Option Paired
push_new new n none = none
push_new new n (some (rows, pairs)) = some (new ++ rows, n + pairs)

module _ (ops : DecimalOps) (arity : ℕ) (numeric : List Bool) where
  abbrev pub hit_by_order : Row → Row → Order → Option Verdict
  unfolding row_values_equal
  hit_by_order s b less = some left_first
  hit_by_order s b greater = some right_first
  hit_by_order s b same_place =
      if leb arity (length s) && leb arity (length b) && leb arity (length numeric)
      then some (
          if row_values_equal ops (drop arity s) (drop arity b) (drop arity numeric)
          then alike
          else changed)
      else none

  unfoldable pub judge_hit : Row → Row → Option Verdict
  unfolding cmp_key hit_by_order
  judge_hit s b = hit_by_order s b (
      cmp_key ops (row_key_tuple s arity) (row_key_tuple b arity)
        (take (min arity (length numeric)) numeric))

module _ (arity : ℕ) (small_is_left : Bool) (judge : Row → Row → Option Verdict) where
  abbrev pub small_status : DiffStatus
  small_status = if small_is_left then missing_right else missing_left

  abbrev pub small_only : Row → DiffRow
  small_only s = diff_row_n s arity small_is_left small_status

  -- The key of a modified row is the small side's.
  abbrev pub modified_pair : Row → Row → DiffRow
  modified_pair s b = record {
    key = diff_key s arity;
    left = if small_is_left then some s else some b;
    right = if small_is_left then some b else some s;
    status = modified;
    confirmed = true;
  }

  abbrev pub on_hit :
      Row → Row → Option Verdict → Option Paired → Option Paired → Option Paired → Option Paired
  on_hit s b none on_small on_big on_both = none
  on_hit s b (some left_first) on_small on_big on_both = push_new (small_only s ∷ []) 0 on_small
  on_hit s b (some right_first) on_small on_big on_both = on_big
  on_hit s b (some alike) on_small on_big on_both = push_new [] 1 on_both
  on_hit s b (some changed) on_small on_big on_both = push_new (modified_pair s b ∷ []) 1 on_both

  -- The small row `s` against the hits; `next` goes on with the small rows behind it.
  abbrev pub seek : (List Row → Option Paired) → Row → List Row → Option Paired
  seek next s [] = push_new (small_only s ∷ []) 0 (next [])
  seek next s (b ∷ bs) = on_hit s b (judge s b) (next (b ∷ bs)) (seek next s bs) (next bs)

  unfoldable pub merge_hits : List Row → List Row → Option Paired
  merge_hits [] hits = some ([], 0)
  merge_hits (s ∷ ss) hits = seek (merge_hits ss) s hits

abbrev warnings_of : ℕ → ℕ → ℕ → List Text
unfolding digits
warnings_of hits unpaired big_total =
    (if ltb 0 unpaired
      then (codes "point-query: "
          ++ digits unpaired
          ++ codes " big-side hit(s) could not be paired by key order")
        ∷ []
      else [])
    ++ (if ltb big_total hits
        then (codes "point-query hits ("
            ++ digits hits
            ++ codes ") exceed big-side COUNT ("
            ++ digits big_total
            ++ codes "); concurrent writes may have shifted the table")
          ∷ []
        else [])

abbrev pub point_query_result : ℕ → ℕ → Option Paired → Option PointQueryMerge
unfolding warnings_of
point_query_result hits big_total none = none
point_query_result hits big_total (some (rows, pairs)) = some (record {
  rows = rows;
  missing_big = big_total - pairs;
  unpaired_hits = hits - pairs;
  extra_warnings = warnings_of hits (hits - pairs) big_total;
})

unfoldable pub merge_small_vs_hits :
    DecimalOps → List Row → List Row → ℕ → List Bool → Bool → ℕ → Option PointQueryMerge
unfolding merge_hits judge_hit point_query_result
merge_small_vs_hits ops small_rows big_hits arity numeric small_is_left big_total =
    point_query_result (length big_hits) big_total
      (merge_hits arity small_is_left (judge_hit ops arity numeric) small_rows big_hits)
