-- ===== src/Guard/Examples.antt =====
-- Statements that the tests of dbcli/src/cli.rs name, and the theorems at concrete statements.
use hepta_dbcli.Prelude.{ℕ, true, false, [], ◌∷◌, ◌++◌, ◌≡◌, ◌≢◌, refl}
use hepta_dbcli.Text.{
  Text, codes, one_of, is_space, is_word, drop_end_while, trim_end, to_uppercase,
}
use hepta_dbcli.Text.Laws.{StartsNot}
use hepta_dbcli.Guard.{
  StatementClass, read_only, data_change, call, ddl, privilege, other, allow, classify_statement,
  write_gate, gate, has_statement, skip_block, after_line, data_change_keywords,
}
use hepta_dbcli.Guard.Comments.{Skippable, nothing, blank, line, block}
use hepta_dbcli.Guard.Leading.{IsWord, one, more, Break, Leads, grants, changes, write_gate-leading}
use hepta_dbcli.Guard.Cte.{write_gate-with}
use hepta_dbcli.Guard.Nested.{Nested, closed, opens, closes, other, write_gate-comment}

-- A table that leaves every character above ASCII as it is.
abbrev same : ℕ → Text
same c = c ∷ []

abbrev class : Text → StatementClass
class = classify_statement same

classes :
    (class (codes "/* a /* b */ c */ -- d\n  drop table t") ≡ ddl)
    × (class (codes "WITH x AS (SELECT 1) DELETE FROM t") ≡ data_change)
    × (class (codes "with x as (select 1) select * from x") ≡ read_only)
    × (class (codes "BEGIN x := 1; END;") ≡ call)
    × (class (codes "begin") ≡ other)
    × (class (codes "SELECT * FROM into_t") ≡ read_only)
    × (class (codes "SELECT * INTO t2 FROM t") ≡ data_change)
    × (class (codes "(select 1)") ≡ read_only)
unfolding classify_statement
classes = (refl, refl, refl, refl, refl, refl, refl, refl)

-- A line break in front of INTO hides it.
into_behind_newline : class (codes "SELECT *\nINTO t2 FROM t") ≡ read_only
unfolding classify_statement
into_behind_newline = refl

fragments :
    (has_statement (codes " -- x\n/* y */ ") ≡ false) × (has_statement (codes "/* y */ ;") ≡ true)
unfolding has_statement
fragments = (refl, refl)

abbrev front : Text
front = codes " -- grant\n/* drop /* */ */\t"

front-Skippable : Skippable front
unfolding is_space skip_block after_line
front-Skippable = blank b' ' refl (
    line (codes " grant") (refl, (refl, (refl, (refl, (refl, (refl, tt))))))
      (block (codes " drop /* */ */") refl (blank b'\t' refl nothing)))

-- `GrAnt`
mixed_case : IsWord (codes "GrAnt")
unfolding is_word
mixed_case = more b'G' refl (more b'r' refl (more b'A' refl (more b'n' refl (one b't' refl))))

grants_lem : Leads (to_uppercase same (codes "GrAnt")) privilege
unfolding to_uppercase one_of
grants_lem = grants refl

space-Break : Break (codes " ALL ON t TO u")
unfolding is_space
space-Break = refl

write_gate-leading_example :
    write_gate same (front ++ (codes "GrAnt" ++ codes " ALL ON t TO u")) true true
    ≡ gate privilege true true
write_gate-leading_example =
    write_gate-leading same front (codes "GrAnt") (codes " ALL ON t TO u") privilege true true
      front-Skippable mixed_case space-Break grants_lem

with-IsWord : IsWord (codes "with")
unfolding is_word
with-IsWord = more b'w' refl (more b'i' refl (more b't' refl (one b'h' refl)))

delete-IsWord : IsWord (codes "DELETE")
unfolding is_word
delete-IsWord =
    more b'D' refl
      (more b'E' refl (more b'L' refl (more b'E' refl (more b'T' refl (one b'E' refl)))))

abbrev cte_tail : Text
cte_tail = codes " x as (select 1)\ndelete from t "

cte_facts :
    (Break cte_tail)
    × (to_uppercase same (codes "with") ≡ codes "WITH")
    × (to_uppercase same (trim_end cte_tail)
        ≡ codes " X AS (SELECT 1)" ++ b'\n' ∷ (codes "DELETE" ++ codes " FROM T"))
    × (is_word b'\n' ≡ false)
    × (StartsNot is_word (codes " FROM T"))
    × (one_of (codes "DELETE") data_change_keywords ≡ true)
unfolding is_space is_word to_uppercase drop_end_while one_of
cte_facts = (refl, refl, refl, refl, refl, refl)

write_gate-with_example : write_gate same (front ++ (codes "with" ++ cte_tail)) false false ≢ allow
write_gate-with_example =
    write_gate-with same front (codes "with") cte_tail (codes " X AS (SELECT 1)") (codes "DELETE")
      (codes " FROM T") b'\n' front-Skippable with-IsWord cte_facts.0 cte_facts.1 cte_facts.2
      cte_facts.3 delete-IsWord cte_facts.4 (changes cte_facts.5)

-- A comment that MySQL executes passes, and so do a keyword with a comment right behind it and one behind a
-- comment of the kind that begins with `#`.
hidden :
    (write_gate same (codes "/*! DROP TABLE t */") false false ≡ allow)
    × (write_gate same (codes "DELETE/**/FROM t") false false ≡ allow)
    × (write_gate same (codes "# x\nDROP TABLE t") false false ≡ allow)
    × (write_gate same (codes "WITH/**/x AS (SELECT 1) DELETE FROM t") false false ≡ allow)
unfolding write_gate
hidden = (refl, refl, refl, refl)

abbrev nested_body : Text
nested_body = codes "!a/*b*/*/"

nested_body-Nested : Nested 1 nested_body
nested_body-Nested =
    other b'!' refl (other b'a' refl (opens (other b'b' refl (closes (closes closed)))))

write_gate-comment_example :
    write_gate same (b'/' ∷ b'*' ∷ (nested_body ++ codes " drop table t")) false false
    ≡ write_gate same (codes " drop table t") false false
write_gate-comment_example =
    write_gate-comment same nested_body (codes " drop table t") false false nested_body-Nested
