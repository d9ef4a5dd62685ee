-- ===== src/RowDiff/Paging/Pages.antt =====
-- The pages that a scan still has to come, and how `drain` goes through them.
use mathlib.Core.List.{append-nil}
use hepta_dbcli.Prelude.{
  ℕ, zero, suc, ◌+◌, ◌≤◌, true, false, List, [], ◌∷◌, ◌++◌, ◌≡◌, refl, sym, ap, ◌∙◌, arith, if-true,
  if-false,
}
use hepta_dbcli.Report.{Row}
use hepta_dbcli.RowDiff.Paging.{
  Reply, rows, Scan, Cursor, turned, RangeDiff, done, add_rows, on_reply, drain,
}

module _ {E : Type 0} (arity : ℕ) (scan : Scan E) where
  -- `Serves cur rest n`: behind the cursor come `n` pages, without an error, that hold `rest`.
  pub data Serves : Cursor → List Row → ℕ → Type 0 where
    ended : {cur : Cursor} → cur.exhausted ≡ true → Serves cur [] 0
    served :
        {cur : Cursor} {rest : List Row} {n : ℕ} (p : List Row)
        → cur.exhausted ≡ false
        → scan cur.last_key ≡ rows p
        → Serves (turned arity cur p) rest n
        → Serves cur (p ++ rest) (suc n)

add_rows-append :
    (add : Row → RangeDiff → RangeDiff) (xs ys : List Row) (out : RangeDiff)
    → add_rows add (xs ++ ys) out ≡ add_rows add ys (add_rows add xs out)
add_rows-append add [] ys out = refl
add_rows-append add (x ∷ xs) ys out = add_rows-append add xs ys (add x out)

plus_zero : (n : ℕ) → n ≡ n + 0
plus_zero n = omega arith

one_more : (q n : ℕ) → suc q + n ≡ q + suc n
one_more q n = omega arith

module _ {E : Type 0} (arity : ℕ) where
  pub drain-Serves :
      (fuel : ℕ) (add : Row → RangeDiff → RangeDiff) (scan : Scan E) (buf : List Row) (cur : Cursor)
      (out : RangeDiff) (queries : ℕ) {rest : List Row} {n : ℕ}
      → Serves arity scan cur rest n
      → suc n ≤ fuel
      → drain arity fuel add scan buf cur out queries
        ≡ done (add_rows add (buf ++ rest) out) (queries + n)
  unfolding drain
  drain-Serves zero add scan buf cur out queries s h = absurd (omega arith)
  drain-Serves (suc fuel) add scan buf cur out queries (ended e) h =
      if-true _ _ e ∙ (λ i. done (add_rows add (sym (append-nil buf) i) out) (plus_zero queries i))
  drain-Serves (suc fuel) add scan buf cur out queries (served {rest = rest} {n = n} p e asked s)
        h =
      if-false _ _ e
      ∙ ap
          (λ (r : Reply E). on_reply r (λ page.
            drain arity fuel add scan page (turned arity cur page) (add_rows add buf out)
              (suc queries)))
          asked
      ∙ drain-Serves fuel add scan p (turned arity cur p) (add_rows add buf out) (suc queries) s
          (omega arith)
      ∙ (λ i. done (sym (add_rows-append add buf (p ++ rest) out) i) (one_more queries n i))
