-- ===== src/Expr/Referenced.antt =====
-- The columns of an expression, and the check that all of them are known: dbcli/src/synth/expr.rs.
use hepta_dbcli.Prelude.{List, [], ◌∷◌, if◌then◌else◌}
use hepta_dbcli.Text.{Text, one_of}
use hepta_dbcli.TextSet.{set_insert}
use hepta_dbcli.Expr.{ExprError, Result, ok, err, Node, Nodes, nil, cons}

-- The columns of an expression, put into a sorted set.
unfoldable mutual
  unfolding set_insert

  pub collect_columns : {N : Type 0} → Node N → List Text → List Text
  collect_columns (Node.column name) out = set_insert name out
  collect_columns (Node.negate n) out = collect_columns n out
  collect_columns (Node.arith op l r) out = collect_columns r (collect_columns l out)
  collect_columns (Node.compare op l r) out = collect_columns r (collect_columns l out)
  collect_columns (Node.and l r) out = collect_columns r (collect_columns l out)
  collect_columns (Node.or l r) out = collect_columns r (collect_columns l out)
  collect_columns (Node.call name args) out = collect_args args out
  collect_columns (Node.number n) out = out
  collect_columns (Node.str t) out = out

  pub collect_args : {N : Type 0} → Nodes N → List Text → List Text
  collect_args nil out = out
  collect_args (cons n ns) out = collect_args ns (collect_columns n out)

unfoldable pub referenced_columns : {N : Type 0} → Node N → List Text
unfolding collect_columns
referenced_columns n = collect_columns n []

-- The first column that is not known is an error.
unfoldable pub check_each : List Text → List Text → Result (Unit {0})
unfolding one_of
check_each known [] = ok tt
check_each known (name ∷ names) =
    let rest = check_each known names in
    if one_of name known then rest else err (ExprError.unknown_column name)

unfoldable pub check_columns : {N : Type 0} → Node N → List Text → Result (Unit {0})
unfolding check_each referenced_columns
check_columns n known = check_each known (referenced_columns n)
