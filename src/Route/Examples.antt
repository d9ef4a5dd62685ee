-- ===== src/Route/Examples.antt =====
-- Routes between a table of MySQL and one of Oracle.
use hepta_dbcli.Prelude.{ℕ, true, false, none, some, [], ◌∷◌, ◌≡◌, refl}
use hepta_dbcli.Text.{Text, codes, drop_end_while, drop_while, is_space}
use hepta_dbcli.Pairing.{TablePlan, pair_plans}
use hepta_dbcli.Route.{joindiff, is_int_key, route_impl, hash_differ, finish_route, ok}
use hepta_dbcli.Route.Meets.{Meets, route_impl-Meets}

abbrev no_wide : ℕ → Text
no_wide c = c ∷ []

abbrev mysql_table : TablePlan
mysql_table = record {
  key_columns = codes "id" ∷ [];
  compare_columns = codes "id" ∷ codes "name" ∷ [];
  norm_specs = [];
  key_specs = record { name = codes "id"; data_type = codes "BIGINT(20)" } ∷ [];
  key_unique = true;
}

abbrev oracle_table : TablePlan
oracle_table = record {
  key_columns = codes "ID" ∷ [];
  compare_columns = codes "ID" ∷ codes "NAME" ∷ [];
  norm_specs = [];
  key_specs = record { name = codes "ID"; data_type = codes "NUMBER" } ∷ [];
  key_unique = true;
}

route_impl-Meets_example :
    Meets no_wide mysql_table oracle_table
      (codes "mysql://a")
      (codes "oracle://b")
      (pair_plans mysql_table oracle_table).key_columns
      joindiff
      (route_impl no_wide mysql_table oracle_table
        (codes "mysql://a")
        (codes "oracle://b")
        (some joindiff)
        false)
route_impl-Meets_example =
    route_impl-Meets no_wide mysql_table oracle_table (codes "mysql://a") (codes "oracle://b")
      (some joindiff) false

-- A decimal with two digits behind the point counts as an integer.
decimal_key :
    is_int_key no_wide
      (record mysql_table {
        key_specs = (record { name = codes "id"; data_type = codes "decimal(10,2)" }) ∷ [];
      })
      (codes "id")
    ≡ true
unfolding is_int_key drop_end_while drop_while is_space
decimal_key = refl

auto_across_servers :
    route_impl no_wide mysql_table oracle_table (codes "mysql://a") (codes "oracle://b") none false
    ≡ ok (finish_route hash_differ (codes "id" ∷ []) [])
unfolding route_impl drop_end_while drop_while is_space
auto_across_servers = refl
