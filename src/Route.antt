-- ===== src/Route.antt =====
-- Which strategy compares two tables: dbcli/src/delta_diff/engine.rs.
mod Integers
mod Passes
pub mod Meets
mod Examples
use hepta_dbcli.Prelude.{
  ℕ, zero, suc, ◌==◌, Bool, true, false, not, ◌&&◌, ◌||◌, List, [], ◌∷◌, ◌++◌, Option, none, some,
  length, if◌then◌else◌,
}
use hepta_dbcli.Text.{
  Text, codes, text_eq, one_of, trim, take_until, before, eq_ignore_ascii_case, to_lowercase,
}
use hepta_dbcli.Report.{digits, join}
use hepta_dbcli.Pairing.{ColumnSpec, TablePlan, spec_for, pair_plans, is_empty}

-- `--strategy`
pub data Strategy : Type 0 where
  auto hashdiff joindiff bucketdiff iblt keyeddiff naivediff minusdiff : Strategy

-- The strategy that runs: the source holds an object of the `DiffStrategy` trait.
pub data Differ : Type 0 where
  hash_differ join_differ bucket_differ iblt_differ keyed_differ naive_differ minus_differ : Differ

pub record Route : Type 0 where
  pub strategy : Differ
  pub key_column : Text
  pub key_columns : List Text
  pub warnings : List Text

-- `Result<Route, String>`
pub data Routed : Type 0 where
  ok : Route → Routed
  err : Text → Routed

abbrev first_or_default : List Text → Text
first_or_default [] = []
first_or_default (k ∷ ks) = k

abbrev pub finish_route : Differ → List Text → List Text → Route
finish_route strategy keys warnings = record {
  strategy = strategy;
  key_column = first_or_default keys;
  key_columns = keys;
  warnings = warnings;
}

abbrev pub keyed_or_bucket_fallback : List Text → List Text → Text → Text → Route
keyed_or_bucket_fallback [] warnings requirement reason = finish_route bucket_differ [] (
    warnings
    ++ (reason
        ++ codes "; "
        ++ requirement
        ++ codes " — falling back to bucketdiff (row-content multiset comparison)")
      ∷ [])
keyed_or_bucket_fallback (k ∷ ks) warnings requirement reason =
    finish_route keyed_differ (k ∷ ks) (
      warnings
      ++ (reason ++ codes "; " ++ requirement ++ codes " — falling back to keyeddiff") ∷ [])

abbrev int_types : List Text
int_types =
    codes "tinyint"
    ∷ codes "smallint"
    ∷ codes "mediumint"
    ∷ codes "int"
    ∷ codes "integer"
    ∷ codes "bigint"
    ∷ codes "int2"
    ∷ codes "int4"
    ∷ codes "int8"
    ∷ codes "oid"
    ∷ codes "number"
    ∷ codes "numeric"
    ∷ codes "decimal"
    ∷ []

abbrev type_of : Option ColumnSpec → Text
type_of none = []
type_of (some s) = s.data_type

abbrev has_spec : Option ColumnSpec → Bool
has_spec none = false
has_spec (some s) = true

-- `wide` is the table of `to_lowercase` above ASCII.
module _ (wide : ℕ → Text) where
  unfoldable pub is_int_key : TablePlan → Text → Bool
  unfolding spec_for one_of take_until to_lowercase
  is_int_key plan key =
      one_of (to_lowercase wide (trim (take_until (λ c. c == b'(') (type_of (spec_for plan key)))))
        int_types

  -- A single integer key on both sides.
  abbrev pub is_bisectable : TablePlan → TablePlan → List Text → Bool
  unfolding is_int_key
  is_bisectable lplan rplan (k ∷ []) = is_int_key lplan k && is_int_key rplan k
  is_bisectable lplan rplan _ = false

abbrev pub resolve_key : TablePlan → TablePlan → List Text
unfolding pair_plans
resolve_key lplan rplan = (pair_plans lplan rplan).key_columns

abbrev composite_text : ℕ → Text
unfolding digits
composite_text n = codes "composite key (" ++ digits n ++ codes " columns)"

unfoldable pub non_bisectable_reason : TablePlan → TablePlan → List Text → Text
unfolding resolve_key composite_text spec_for
non_bisectable_reason lplan rplan [] =
    let ln = length lplan.key_columns in
    let rn = length rplan.key_columns in
    if ln == 0 && rn == 0
    then codes "table has no key"
    else if ln == 0 || rn == 0
    then codes "key is missing on one side"
    else if is_empty (resolve_key lplan rplan)
    then codes "key columns differ between the two sides"
    else composite_text ln
non_bisectable_reason lplan rplan (k ∷ []) =
    if not (has_spec (spec_for lplan k)) || not (has_spec (spec_for rplan k))
    then codes "key column '" ++ k ++ codes "' is not among the compared columns"
    else codes "key column '" ++ k ++ codes "' is not an integer type"
non_bisectable_reason lplan rplan (k ∷ j ∷ ks) = composite_text (length (k ∷ j ∷ ks))

unfoldable pub static_set_difference_url : Text → Bool
unfolding before eq_ignore_ascii_case
static_set_difference_url url =
    let scheme = before (codes "://") url in
    eq_ignore_ascii_case scheme (codes "oracle")
    || eq_ignore_ascii_case scheme (codes "gaussdb")
    || eq_ignore_ascii_case scheme (codes "duckdb")

abbrev pub auto_prefers_minusdiff : Bool → TablePlan → TablePlan → Bool → Bool → Text → Bool
unfolding static_set_difference_url
auto_prefers_minusdiff same_conn lplan rplan bisectable summary_only left_url =
    if not same_conn || not lplan.key_unique || not rplan.key_unique
    then false
    else if not bisectable
    then true
    else summary_only && static_set_difference_url left_url

abbrev not_corresponding : Text → TablePlan → TablePlan → Text
not_corresponding reason lplan rplan =
    codes "keyed diff unavailable: "
    ++ reason
    ++ codes "; left key ["
    ++ join (codes ", ") lplan.key_columns
    ++ codes "] does not correspond to right key ["
    ++ join (codes ", ") rplan.key_columns
    ++ codes "]"

abbrev keyless_note : Text → TablePlan → TablePlan → Text
keyless_note reason lplan rplan =
    if is_empty lplan.key_columns && is_empty rplan.key_columns
    then codes "note: keyless table diff reports row-content multiset differences only"
    else not_corresponding reason lplan rplan
      ++ codes " — degraded to keyless multiset comparison; row-content differences only"

-- The branches of `route_impl`, on the resolved key columns, whether they are bisectable, whether
-- the URLs are the same, and the reason text.
module _ (lplan rplan : TablePlan) (keys : List Text) (bisectable same_conn : Bool)
    (reason : Text) where
  abbrev plain : Differ → List Text → Routed
  plain strategy warnings = ok (finish_route strategy keys warnings)

  abbrev fallback : Text → Routed
  fallback requirement = ok (keyed_or_bucket_fallback keys [] requirement reason)

  abbrev pub route_auto : Bool → Text → Routed
  unfolding auto_prefers_minusdiff
  route_auto summary_only left_url =
      if is_empty keys
      then plain bucket_differ (keyless_note reason lplan rplan ∷ [])
      else if auto_prefers_minusdiff same_conn lplan rplan bisectable summary_only left_url
      then plain minus_differ []
      else if not bisectable
      then plain keyed_differ []
      else if same_conn
      then plain join_differ []
      else plain hash_differ []

  abbrev pub route_joindiff : Routed
  route_joindiff =
      if not bisectable
      then fallback (codes "strategy 'joindiff' requires a single integer key")
      else if not same_conn
      then plain hash_differ
          (codes "joindiff requires same-connection; falling back to hashdiff" ∷ [])
      else plain join_differ []

  abbrev pub route_keyeddiff : Routed
  route_keyeddiff =
      if is_empty keys
      then (if not (is_empty lplan.key_columns) && not (is_empty rplan.key_columns)
          then err (not_corresponding reason lplan rplan)
          else fallback (codes "strategy 'keyeddiff' requires a comparison key"))
      else plain keyed_differ []

  abbrev pub route_minusdiff : Routed
  route_minusdiff =
      if is_empty keys
      then plain bucket_differ
          (codes "minusdiff requires a unique key; falling back to bucketdiff" ∷ [])
      else if not lplan.key_unique || not rplan.key_unique
      then plain keyed_differ
          (codes "minusdiff requires a unique key; falling back to keyeddiff" ∷ [])
      else if not same_conn
      then (if bisectable
          then plain hash_differ
              (codes "minusdiff requires same-connection; falling back to hashdiff" ∷ [])
          else plain keyed_differ
              (codes "minusdiff requires same-connection; falling back to keyeddiff" ∷ []))
      else plain minus_differ []

  abbrev pub route_naivediff : Routed
  route_naivediff = plain naive_differ (
      if is_empty keys
      then codes
          "note: keyless naivediff reports row-content multiset differences only (source-only / target-only rows, no Modified)"
        ∷ []
      else [])

  unfoldable pub route_by : Strategy → Bool → Text → Routed
  unfolding route_auto
  route_by auto summary_only left_url = route_auto summary_only left_url
  route_by hashdiff summary_only left_url =
      if bisectable
      then plain hash_differ []
      else fallback (codes "strategy 'hashdiff' requires a single integer key")
  route_by bucketdiff summary_only left_url = plain bucket_differ []
  route_by joindiff summary_only left_url = route_joindiff
  route_by iblt summary_only left_url =
      if bisectable
      then plain iblt_differ []
      else fallback (codes "strategy 'iblt' requires a single integer key")
  route_by keyeddiff summary_only left_url = route_keyeddiff
  route_by naivediff summary_only left_url = route_naivediff
  route_by minusdiff summary_only left_url = route_minusdiff

abbrev pub or_auto : Option Strategy → Strategy
or_auto none = auto
or_auto (some s) = s

unfoldable pub route_impl :
    (ℕ → Text) → TablePlan → TablePlan → Text → Text → Option Strategy → Bool → Routed
unfolding resolve_key is_bisectable non_bisectable_reason text_eq route_by
route_impl wide lplan rplan left_url right_url hint summary_only =
    let keys = resolve_key lplan rplan in
    route_by lplan rplan keys (is_bisectable wide lplan rplan keys) (text_eq left_url right_url)
      (non_bisectable_reason lplan rplan keys) (or_auto hint) summary_only left_url
