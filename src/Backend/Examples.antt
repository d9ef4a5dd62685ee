-- ===== src/Backend/Examples.antt =====
-- Small statements, and the theorems at concrete inputs.
use hepta_dbcli.Prelude.{true, false, ◌++◌, some, ◌≡◌, refl}
use hepta_dbcli.Text.{codes}
use hepta_dbcli.Report.{string}
use hepta_dbcli.Backend.Quoting.{quote_ident, quote_table_scheme, sql_literal, contains_bare_limit}
use hepta_dbcli.Backend.Quoting.ReadBack.{ReadsAs, quote_ident-read, sql_literal-read}
use hepta_dbcli.Backend.Quoting.BareLimit.{Code, last, plain, quoted, contains_bare_limit-quoted}

oracle_table :
    quote_table_scheme (codes "oracle") 34 (some (codes "hr")) (codes "emp")
    ≡ codes "\"HR\".\"EMP\""
unfolding quote_table_scheme
oracle_table = refl

injection : sql_literal (string (codes "x' OR '1'='1")) false ≡ codes "'x'' OR ''1''=''1'"
unfolding sql_literal
injection = refl

limit_found : contains_bare_limit (codes "select 'limit' /* limit */ from t limit 1") ≡ true
unfolding contains_bare_limit
limit_found = refl

limit_hidden :
    contains_bare_limit (codes "select 'limit' /* limit */ from t_limit -- limit") ≡ false
unfolding contains_bare_limit
limit_hidden = refl

quote_ident-read_example :
    ReadsAs 34 false (quote_ident 34 (codes "a\"b") ++ codes ".c") (codes "a\"b") (codes ".c")
quote_ident-read_example = quote_ident-read 34 (codes "a\"b") (codes ".c") refl

sql_literal-read_example :
    ReadsAs 39 true
      (sql_literal (string (codes "it's \\")) true ++ codes ", 2)")
      (codes "it's \\")
      (codes ", 2)")
sql_literal-read_example = sql_literal-read (codes "it's \\") (codes ", 2)") true refl

a_in_code : Code (codes "'x' = ")
unfolding quote_ident
a_in_code =
    quoted 39 (codes "x") 32 refl refl
      (plain 32 61 refl refl (plain 61 32 refl refl (last 32 refl)))

contains_bare_limit-quoted_example :
    contains_bare_limit (codes "'x' = " ++ (quote_ident 34 (codes "limit") ++ codes " or y"))
    ≡ contains_bare_limit (codes "'x' = " ++ (quote_ident 34 (codes "") ++ codes " or y"))
contains_bare_limit-quoted_example =
    contains_bare_limit-quoted 34 (codes "'x' = ") (codes "limit") (codes "") (codes " or y") refl
      refl a_in_code
