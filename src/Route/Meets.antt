-- ===== src/Route/Meets.antt =====
-- The strategy that `route_impl` of dbcli/src/delta_diff/engine.rs takes, and what the strategy needs.
use hepta_dbcli.Prelude.{ℕ, Bool, true, false, not, ◌&&◌, List, [], ◌∷◌, Option, ◌≡◌, ◌≢◌, refl}
use hepta_dbcli.Text.{Text, text_eq}
use hepta_dbcli.Text.Laws.{text_eq_iff}
use hepta_dbcli.Pairing.{TablePlan, pair_plans, is_empty}
use hepta_dbcli.Pairing.Keys.{Shared, pair_plans-Shared}
use hepta_dbcli.Route.{
  Strategy, keyeddiff, Differ, hash_differ, join_differ, bucket_differ, iblt_differ, keyed_differ,
  naive_differ, minus_differ, Routed, ok, err, is_int_key, is_bisectable, or_auto, route_impl,
}
use hepta_dbcli.Route.Integers.{HasIntegerType, is_int_key-HasIntegerType}
use hepta_dbcli.Route.Passes.{fits, Passes, route_impl-Passes}

-- A single column, of a type of the list `counting` in either table.
abbrev pub SingleInteger : (ℕ → Text) → TablePlan → TablePlan → List Text → Type 0
SingleInteger wide lplan rplan keys =
    (k : Text) × (keys ≡ k ∷ []) × HasIntegerType wide lplan k × HasIntegerType wide rplan k

module _ (wide : ℕ → Text) (lplan rplan : TablePlan) (left_url right_url : Text)
    (keys : List Text) where
  abbrev pub Needs : Differ → Type 0
  Needs hash_differ = SingleInteger wide lplan rplan keys
  Needs join_differ = SingleInteger wide lplan rplan keys × (left_url ≡ right_url)
  Needs bucket_differ = Unit {0}
  Needs iblt_differ = SingleInteger wide lplan rplan keys
  Needs keyed_differ = keys ≢ []
  Needs naive_differ = Unit {0}
  Needs minus_differ =
      (keys ≢ []) × (left_url ≡ right_url) × (lplan.key_unique ≡ true) × (rplan.key_unique ≡ true)

  abbrev pub Meets : Strategy → Routed → Type 0
  Meets wanted (ok r) = (r.key_columns ≡ keys) × Shared lplan rplan keys × Needs r.strategy
  Meets wanted (err e) =
      (wanted ≡ keyeddiff) × (keys ≡ []) × (lplan.key_columns ≢ []) × (rplan.key_columns ≢ [])

some_key : (ks : List Text) → is_empty ks ≡ false → ks ≢ []
some_key [] h e = cc h
some_key (k ∷ ks) h e = cc e

no_key : (ks : List Text) → is_empty ks ≡ true → ks ≡ []
no_key [] h = refl
no_key (k ∷ ks) h = cc h

of_not : (b : Bool) → not b ≡ true → b ≡ false
of_not true h = cc
of_not false h = refl

of_and : (a b : Bool) → (a && b) ≡ true → (a ≡ true) × (b ≡ true)
of_and true b h = (refl, h)
of_and false b h = cc

is_bisectable-SingleInteger :
    (wide : ℕ → Text) (lplan rplan : TablePlan) (keys : List Text)
    → is_bisectable wide lplan rplan keys ≡ true
    → SingleInteger wide lplan rplan keys
unfolding is_bisectable
is_bisectable-SingleInteger wide l r [] h = cc h
is_bisectable-SingleInteger wide l r (k ∷ []) h =
    let t = of_and (is_int_key wide l k) (is_int_key wide r k) h in
    (k, refl, is_int_key-HasIntegerType wide l k t.0, is_int_key-HasIntegerType wide r k t.1)
is_bisectable-SingleInteger wide l r (k ∷ j ∷ ks) h = cc h

module _ (wide : ℕ → Text) (lplan rplan : TablePlan) (left_url right_url : Text)
    (keys : List Text) where
  abbrev bisectable : Bool
  bisectable = is_bisectable wide lplan rplan keys

  abbrev one_url : Bool
  one_url = text_eq left_url right_url

  single : bisectable ≡ true → SingleInteger wide lplan rplan keys
  single = is_bisectable-SingleInteger wide lplan rplan keys

  url : one_url ≡ true → left_url ≡ right_url
  url = (text_eq_iff left_url right_url).0

  fits-Needs :
      (d : Differ)
      → fits lplan rplan keys bisectable one_url d ≡ true
      → Needs wide lplan rplan left_url right_url keys d
  fits-Needs hash_differ h = single h
  fits-Needs join_differ h = let t = of_and bisectable one_url h in (single t.0, url t.1)
  fits-Needs bucket_differ h = tt
  fits-Needs iblt_differ h = single h
  fits-Needs keyed_differ h = some_key keys (of_not (is_empty keys) h)
  fits-Needs naive_differ h = tt
  fits-Needs minus_differ h =
      let a = of_and (not (is_empty keys) && one_url && lplan.key_unique) rplan.key_unique h in
      let b = of_and (not (is_empty keys) && one_url) lplan.key_unique a.0 in
      let c = of_and (not (is_empty keys)) one_url b.0 in
      (some_key keys (of_not (is_empty keys) c.0), url c.1, b.1, a.1)

  Passes-Meets :
      (wanted : Strategy) (o : Routed)
      → Shared lplan rplan keys
      → Passes lplan rplan keys bisectable one_url wanted o
      → Meets wide lplan rplan left_url right_url keys wanted o
  Passes-Meets wanted (ok r) s h = (h.0, s, fits-Needs r.strategy h.1)
  Passes-Meets wanted (err e) s h =
      (h.0, no_key keys h.1, some_key lplan.key_columns h.2, some_key rplan.key_columns h.3)

-- The strategy that a route takes always has what it needs: hashdiff and iblt a single key column that in
-- both tables has a type of the list of integer types and exact decimals, joindiff the same and one URL,
-- minusdiff one URL and a key that both sides know to be unique, keyeddiff a key. The key of the route is
-- empty, or it is that of the left table, whose columns are paired one to one with those of the right key
-- by names that are equal up to the case of ASCII letters. A route fails only for keyeddiff on two tables
-- with keys of which none is shared.
pub route_impl-Meets :
    (wide : ℕ → Text) (lplan rplan : TablePlan) (left_url right_url : Text) (hint : Option Strategy)
    (summary_only : Bool)
    → Meets wide lplan rplan left_url right_url
        (pair_plans lplan rplan).key_columns
        (or_auto hint)
        (route_impl wide lplan rplan left_url right_url hint summary_only)
route_impl-Meets wide lplan rplan left_url right_url hint summary_only =
    Passes-Meets wide lplan rplan left_url right_url (pair_plans lplan rplan).key_columns
      (or_auto hint) (route_impl wide lplan rplan left_url right_url hint summary_only)
      (pair_plans-Shared lplan rplan)
      (route_impl-Passes wide lplan rplan left_url right_url hint summary_only)
