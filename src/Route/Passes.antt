-- ===== src/Route/Passes.antt =====
-- The branches of `route_impl` of dbcli/src/delta_diff/engine.rs against the tests that they make.
use hepta_dbcli.Prelude.{
  ℕ, Bool, true, false, not, ◌&&◌, ◌||◌, List, [], ◌∷◌, Option, ◌≡◌, refl, arith, if-cases,
  if◌then◌else◌,
}
use hepta_dbcli.Text.{Text, text_eq}
use hepta_dbcli.Pairing.{TablePlan, pair_plans, is_empty}
use hepta_dbcli.Route.{
  Strategy, auto, hashdiff, joindiff, bucketdiff, iblt, keyeddiff, naivediff, minusdiff, Differ,
  hash_differ, join_differ, bucket_differ, iblt_differ, keyed_differ, naive_differ, minus_differ,
  Routed, ok, err, keyed_or_bucket_fallback, is_bisectable, resolve_key, non_bisectable_reason,
  auto_prefers_minusdiff, route_by, or_auto, route_impl,
}

module _ (lplan rplan : TablePlan) (keys : List Text) (bisectable same_conn : Bool) where
  -- What a strategy needs: a single integer key, a key, one connection, a unique key.
  abbrev pub fits : Differ → Bool
  fits hash_differ = bisectable
  fits join_differ = bisectable && same_conn
  fits bucket_differ = true
  fits iblt_differ = bisectable
  fits keyed_differ = not (is_empty keys)
  fits naive_differ = true
  fits minus_differ = not (is_empty keys) && same_conn && lplan.key_unique && rplan.key_unique

  abbrev pub Passes : Strategy → Routed → Type 0
  Passes wanted (ok r) = (r.key_columns ≡ keys) × (fits r.strategy ≡ true)
  Passes wanted (err e) =
      (wanted ≡ keyeddiff)
      × (is_empty keys ≡ true)
      × (is_empty lplan.key_columns ≡ false)
      × (is_empty rplan.key_columns ≡ false)

minus_fits :
    (empty s u v b so st : Bool)
    → empty ≡ false
    → (if not s || not u || not v then false else if not b then true else so && st) ≡ true
    → (not empty && s && u && v) ≡ true
minus_fits empty s u v b so st e p = ground arith

keyed_or_bucket_fallback-Passes :
    (lplan rplan : TablePlan) (keys : List Text) (bisectable same_conn : Bool) (wanted : Strategy)
    (requirement reason : Text)
    → Passes lplan rplan keys bisectable same_conn wanted
        (ok (keyed_or_bucket_fallback keys [] requirement reason))
keyed_or_bucket_fallback-Passes lplan rplan [] bisectable same_conn wanted requirement reason =
    (refl, refl)
keyed_or_bucket_fallback-Passes lplan rplan (k ∷ ks) bisectable same_conn wanted requirement
      reason =
    (refl, refl)

module _ (lplan rplan : TablePlan) (keys : List Text) (bisectable same_conn : Bool) where
  module _ (has_key : bisectable ≡ true → is_empty keys ≡ false) (reason : Text) where
    route_by-Passes :
        (wanted : Strategy) (summary_only : Bool) (left_url : Text)
        → Passes lplan rplan keys bisectable same_conn wanted
            (route_by lplan rplan keys bisectable same_conn reason wanted summary_only left_url)
    unfolding route_by
    route_by-Passes auto so url =
        if-cases (Passes lplan rplan keys bisectable same_conn auto) (is_empty keys)
          (λ e. (refl, refl))
          (λ e.
            if-cases (Passes lplan rplan keys bisectable same_conn auto)
              (auto_prefers_minusdiff same_conn lplan rplan bisectable so url)
              (λ p. (
                refl,
                minus_fits (is_empty keys) same_conn lplan.key_unique rplan.key_unique bisectable so
                    _ e p,
              ))
              (λ p.
                if-cases (Passes lplan rplan keys bisectable same_conn auto) (not bisectable)
                  (λ n. (refl, ground arith))
                  (λ n.
                    if-cases (Passes lplan rplan keys bisectable same_conn auto) same_conn
                      (λ s. (refl, ground arith)) (λ s. (refl, ground arith)))))
    route_by-Passes hashdiff so url =
        if-cases (Passes lplan rplan keys bisectable same_conn hashdiff) bisectable (λ e. (refl, e))
          (λ e.
            keyed_or_bucket_fallback-Passes lplan rplan keys bisectable same_conn hashdiff _ reason)
    route_by-Passes bucketdiff so url = (refl, refl)
    route_by-Passes joindiff so url =
        if-cases (Passes lplan rplan keys bisectable same_conn joindiff) (not bisectable)
          (λ e.
            keyed_or_bucket_fallback-Passes lplan rplan keys bisectable same_conn joindiff _ reason)
          (λ e.
            if-cases (Passes lplan rplan keys bisectable same_conn joindiff) (not same_conn)
              (λ s. (refl, ground arith)) (λ s. (refl, ground arith)))
    route_by-Passes iblt so url =
        if-cases (Passes lplan rplan keys bisectable same_conn iblt) bisectable (λ e. (refl, e))
          (λ e. keyed_or_bucket_fallback-Passes lplan rplan keys bisectable same_conn iblt _ reason)
    route_by-Passes keyeddiff so url =
        if-cases (Passes lplan rplan keys bisectable same_conn keyeddiff) (is_empty keys)
          (λ e.
            if-cases (Passes lplan rplan keys bisectable same_conn keyeddiff)
              (not (is_empty lplan.key_columns) && not (is_empty rplan.key_columns))
              (λ k. (refl, e, ground arith, ground arith))
              (λ k.
                keyed_or_bucket_fallback-Passes lplan rplan keys bisectable same_conn keyeddiff _
                  reason))
          (λ e. (refl, ground arith))
    route_by-Passes naivediff so url = (refl, refl)
    route_by-Passes minusdiff so url =
        if-cases (Passes lplan rplan keys bisectable same_conn minusdiff) (is_empty keys)
          (λ e. (refl, refl))
          (λ e.
            if-cases (Passes lplan rplan keys bisectable same_conn minusdiff)
              (not lplan.key_unique || not rplan.key_unique) (λ u. (refl, ground arith))
              (λ u.
                if-cases (Passes lplan rplan keys bisectable same_conn minusdiff) (not same_conn)
                  (λ s.
                    if-cases (Passes lplan rplan keys bisectable same_conn minusdiff) bisectable
                      (λ b. (refl, b)) (λ b. (refl, ground arith)))
                  (λ s. (refl, ground arith))))

pub route_impl-Passes :
    (wide : ℕ → Text) (lplan rplan : TablePlan) (left_url right_url : Text) (hint : Option Strategy)
    (summary_only : Bool)
    → let keys = (pair_plans lplan rplan).key_columns in
      Passes lplan rplan keys
        (is_bisectable wide lplan rplan keys)
        (text_eq left_url right_url)
        (or_auto hint)
        (route_impl wide lplan rplan left_url right_url hint summary_only)
unfolding route_impl
route_impl-Passes wide lplan rplan left_url right_url hint summary_only =
    let keys = resolve_key lplan rplan in
    route_by-Passes lplan rplan keys (is_bisectable wide lplan rplan keys)
      (text_eq left_url right_url) (has_key keys) (non_bisectable_reason lplan rplan keys)
      (or_auto hint) summary_only left_url
  where
    has_key :
        (keys : List Text) → is_bisectable wide lplan rplan keys ≡ true → is_empty keys ≡ false
    has_key [] e = absurd (ground arith)
    has_key (k ∷ ks) e = refl
