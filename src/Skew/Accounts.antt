-- ===== src/Skew/Accounts.antt =====
-- How the point queries account for the rows of both sides.
use mathlib.Core.Path.{subst}
use hepta_dbcli.Prelude.{
  ℕ, suc, ◌+◌, ◌-◌, ◌*◌, ◌/◌, ◌≤◌, ◌<◌, leb, tests, ltb→lt, lt→ltb, Bool, true, false, not, ◌&&◌,
  List, [], ◌∷◌, Option, none, some, length, if◌then◌else◌, ◌≡◌, ◌↔◌, refl, sym, arith, if-true,
}
use hepta_dbcli.Prelude.Sort.{count_if}
use hepta_dbcli.Decimals.{DecimalOps, Order, less, same_place, greater}
use hepta_dbcli.Report.{Row, DiffRow, DiffStatus, missing_left, missing_right, modified}
use hepta_dbcli.RowDiff.Paging.{Verdict, left_first, right_first, alike, changed}
use hepta_dbcli.Naive.Balance.{count_if-append}
use hepta_dbcli.Skew.{
  is_skewed, Paired, PointQueryMerge, push_new, hit_by_order, judge_hit, small_only, modified_pair,
  on_hit, seek, merge_hits, point_query_result, merge_small_vs_hits,
}

-- A row of the report that says that the other side misses a row of the small side.
abbrev pub is_missing : Bool → DiffStatus → Bool
is_missing small_is_left missing_left = not small_is_left
is_missing small_is_left missing_right = small_is_left
is_missing small_is_left modified = false

abbrev pub WideRows : ℕ → List Row → Type 0
WideRows arity [] = Unit {0}
WideRows arity (r ∷ rs) = (leb arity (length r) ≡ true) × WideRows arity rs

module _ (small_is_left : Bool) where
  abbrev pub missing_rows : List DiffRow → ℕ
  missing_rows rows = count_if (λ r. is_missing small_is_left r.status) rows

  -- Of `smalls` small rows against `hits` hits: every small row is paired or reported as missing.
  abbrev Accounted : ℕ → ℕ → Option Paired → Type 0
  Accounted smalls hits none = ⊥
  Accounted smalls hits (some (rows, pairs)) = (missing_rows rows + pairs ≡ smalls) × (pairs ≤ hits)

  push_new-Accounted :
      (new : List DiffRow) (n smalls hits more : ℕ) (o : Option Paired)
      → missing_rows new + n ≡ 1
      → n + hits ≤ more
      → Accounted smalls hits o
      → Accounted (suc smalls) more (push_new new n o)
  push_new-Accounted new n smalls hits more none one fits h = h
  push_new-Accounted new n smalls hits more (some (rows, pairs)) one fits (a, b) = (
    omega (arith, a, one, count_if-append (λ r. is_missing small_is_left r.status) new rows),
    omega (arith, b, fits),
  )

  later-Accounted :
      (smalls hits : ℕ) (o : Option Paired)
      → Accounted smalls hits o
      → Accounted smalls (suc hits) o
  later-Accounted smalls hits none h = h
  later-Accounted smalls hits (some (rows, pairs)) (a, b) = (a, omega (arith, b))

module _ (arity : ℕ) (small_is_left : Bool) (judge : Row → Row → Option Verdict) where
  small_only-missing :
      (s : Row) → missing_rows small_is_left (small_only arity small_is_left judge s ∷ []) + 0 ≡ 1
  small_only-missing s = by_side small_is_left
    where
      by_side :
          (t : Bool)
          → (if is_missing t (if t then missing_right else missing_left) then 1 else 0) + 0 ≡ 1
      by_side true = refl
      by_side false = refl

  modified_pair-missing :
      (s b : Row)
      → missing_rows small_is_left (modified_pair arity small_is_left judge s b ∷ []) + 1 ≡ 1
  modified_pair-missing s b = refl

  on_hit-Accounted :
      (s b : Row) (v : Verdict) (smalls hits : ℕ) (on_small on_big on_both : Option Paired)
      → Accounted small_is_left smalls (suc hits) on_small
      → Accounted small_is_left (suc smalls) hits on_big
      → Accounted small_is_left smalls hits on_both
      → Accounted small_is_left
          (suc smalls)
          (suc hits)
          (on_hit arity small_is_left judge s b (some v) on_small on_big on_both)
  on_hit-Accounted s b left_first smalls hits o p q ho hp hq =
      push_new-Accounted small_is_left (small_only arity small_is_left judge s ∷ []) 0 smalls
        (suc hits) (suc hits) o (small_only-missing s) (omega arith) ho
  on_hit-Accounted s b right_first smalls hits o p q ho hp hq =
      later-Accounted small_is_left (suc smalls) hits p hp
  on_hit-Accounted s b alike smalls hits o p q ho hp hq =
      push_new-Accounted small_is_left [] 1 smalls hits (suc hits) q refl (omega arith) hq
  on_hit-Accounted s b changed smalls hits o p q ho hp hq =
      push_new-Accounted small_is_left (modified_pair arity small_is_left judge s b ∷ []) 1 smalls
        hits (suc hits) q (modified_pair-missing s b) (omega arith) hq

  Judged : Type 0
  Judged =
      (s b : Row)
      → leb arity (length s) ≡ true
      → leb arity (length b) ≡ true
      → (v : Verdict) × (judge s b ≡ some v)

  seek-Accounted :
      Judged
      → (next : List Row → Option Paired) (smalls : ℕ)
      → ((hits : List Row)
          → WideRows arity hits
          → Accounted small_is_left smalls (length hits) (next hits))
      → (s : Row) (hits : List Row) → leb arity (length s) ≡ true
      → WideRows arity hits
      → Accounted small_is_left
          (suc smalls)
          (length hits)
          (seek arity small_is_left judge next s hits)
  unfolding Judged
  seek-Accounted judged next smalls h s [] w u =
      push_new-Accounted small_is_left (small_only arity small_is_left judge s ∷ []) 0 smalls 0 0
        (next []) (small_only-missing s) (omega arith) (h [] tt)
  seek-Accounted judged next smalls h s (b ∷ bs) w (x, u) =
      let (v, e) = judged s b w x in
      subst
        (λ (o : Option Verdict). Accounted small_is_left (suc smalls) (suc (length bs)) (
          on_hit arity small_is_left judge s b o (next (b ∷ bs))
            (seek arity small_is_left judge next s bs) (next bs)))
        (sym e)
        (on_hit-Accounted s b v smalls (length bs) (next (b ∷ bs))
          (seek arity small_is_left judge next s bs) (next bs) (h (b ∷ bs) (x, u))
          (seek-Accounted judged next smalls h s bs w u) (h bs u))

  merge_hits-Accounted :
      Judged
      → (smalls hits : List Row) → WideRows arity smalls
      → WideRows arity hits
      → Accounted small_is_left
          (length smalls)
          (length hits)
          (merge_hits arity small_is_left judge smalls hits)
  unfolding merge_hits
  merge_hits-Accounted judged [] hits w u = (refl, omega arith)
  merge_hits-Accounted judged (s ∷ ss) hits (x, w) u =
      seek-Accounted judged (merge_hits arity small_is_left judge ss) (length ss)
        (λ bs v. merge_hits-Accounted judged ss bs w v) s hits x u

all_three : (a b c : Bool) → a ≡ true → b ≡ true → c ≡ true → (a && b && c) ≡ true
all_three a b c e f g = ground arith

judge_hit-Judged :
    (ops : DecimalOps) (arity : ℕ) (numeric : List Bool) (small_is_left : Bool)
    → leb arity (length numeric) ≡ true
    → Judged arity small_is_left (judge_hit ops arity numeric)
unfolding Judged judge_hit
judge_hit-Judged ops arity numeric small_is_left n s b w x = by_order _
  where
    by_order : (o : Order) → (v : Verdict) × (hit_by_order ops arity numeric s b o ≡ some v)
    by_order less = (left_first, refl)
    by_order greater = (right_first, refl)
    by_order same_place =
        let covers : (leb arity (length s) && leb arity (length b) && leb arity (length numeric))
            ≡ true =
          all_three _ _ _ w x n in
        (_, if-true _ _ covers)

-- The books of a point query: the small side's rows that are reported as missing, with the hits, are
-- its rows with the unpaired hits; and the large side's rows that are missing are its rows less the
-- paired hits.
abbrev pub Balances : Bool → ℕ → ℕ → ℕ → Option PointQueryMerge → Type 0
Balances small_is_left smalls hits big_total none = ⊥
Balances small_is_left smalls hits big_total (some m) =
    (missing_rows small_is_left m.rows + hits ≡ smalls + m.unpaired_hits)
    × (m.missing_big ≡ big_total + m.unpaired_hits - hits)

-- When every row and the flags cover the key columns, the merge of the small side's rows with the
-- hits succeeds, and its books balance.
pub merge_small_vs_hits-Balances :
    (ops : DecimalOps) (small_rows big_hits : List Row) (arity : ℕ) (numeric : List Bool)
    (small_is_left : Bool) (big_total : ℕ)
    → leb arity (length numeric) ≡ true
    → WideRows arity small_rows
    → WideRows arity big_hits
    → Balances small_is_left
        (length small_rows)
        (length big_hits)
        big_total
        (merge_small_vs_hits ops small_rows big_hits arity numeric small_is_left big_total)
unfolding merge_small_vs_hits
merge_small_vs_hits-Balances ops smalls hits arity numeric small_is_left big_total n w u =
    balance _ (
      merge_hits-Accounted arity small_is_left (judge_hit ops arity numeric)
        (judge_hit-Judged ops arity numeric small_is_left n) smalls hits w u)
  where
    balance :
        (o : Option Paired)
        → Accounted small_is_left (length smalls) (length hits) o
        → Balances small_is_left
            (length smalls)
            (length hits)
            big_total
            (point_query_result (length hits) big_total o)
    balance none h = h
    balance (some (rows, pairs)) (a, b) = (omega (arith, a, b), omega (arith, b))

eighth : (big small : ℕ) → (leb small (big / 8) ≡ true) ↔ (small * 8 ≤ big)
eighth big small = (λ h. omega (tests, h), λ h. fits (omega (arith, h)))
  where
    fits : small ≤ big / 8 → leb small (big / 8) ≡ true
    fits h = ground arith

-- The test that divides is the test that multiplies: the large side has at least eight times as many
-- rows, and the small side is not empty.
pub is_skewed_iff :
    (big small : ℕ) → (is_skewed big small ≡ true) ↔ ((0 < small) × (small * 8 ≤ big))
is_skewed_iff big small = (
  λ h. (ltb→lt 0 small (ground arith), (eighth big small).0 (ground arith)),
  λ (a, b). both (lt→ltb 0 small a) ((eighth big small).1 b),
)
  where
    both : {s t : Bool} → s ≡ true → t ≡ true → (s && t) ≡ true
    both {s} {t} e f = ground arith
