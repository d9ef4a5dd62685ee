-- ===== src/ColumnType.antt =====
-- `TablePlan::is_numeric_type` of dbcli/src/delta_diff/metadata.rs.
use hepta_dbcli.Prelude.{◌==◌, Bool, List, [], ◌∷◌, map}
use hepta_dbcli.Text.{Text, codes, one_of, take_until, trim, lower_ascii}

abbrev pub numeric_types : List Text
numeric_types = map codes (
    "tinyint" ∷ "smallint" ∷ "mediumint" ∷ "int" ∷ "integer" ∷ "bigint" ∷ "int2" ∷ "int4" ∷ "int8"
    ∷ "oid" ∷ "number" ∷ "decimal" ∷ "numeric" ∷ "money" ∷ [])

unfoldable pub is_numeric_type : Text → Bool
unfolding one_of take_until
is_numeric_type data_type =
    one_of (map lower_ascii (trim (take_until (◌==◌ b'(') data_type))) numeric_types
