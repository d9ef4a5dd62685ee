-- ===== src/Guard.antt =====
-- The write gate of dbcli/src/cli.rs: comments are stripped, the statement is classified by its
-- first word, and the class decides which flag it needs.

pub mod Comments
pub mod Leading
pub mod Cte
pub mod Nested
mod Examples
use hepta_dbcli.Prelude.{
  ℕ, suc, zero, ◌+◌, ◌-◌, Bool, true, false, not, ◌&&◌, ◌||◌, List, [], ◌∷◌, Option, none, some,
  ltb, ◌==◌, length, if◌then◌else◌,
}
use hepta_dbcli.Text.{
  Text, codes, text_eq, one_of, within, is_space, is_word, drop_while, drop_end_while, take_until,
  split, trim_start, trim_end, trim, ends_with, starts_with_any, contains, to_uppercase,
}

-- The loop over a block comment from depth `depth`: what is left behind its end, or `none` if the
-- text ends first. Comments nest.
unfoldable pub skip_block : ℕ → Text → Option Text
skip_block zero s = some s
skip_block (suc depth) (a ∷ b ∷ s) = elim (a == b'/' && b == b'*') [
  | true ↦ skip_block (suc (suc depth)) s
  | false ↦ elim (a == b'*' && b == b'/') [
    | true ↦ skip_block depth s
    | false ↦ skip_block (suc depth) (b ∷ s)
  ]
]
skip_block (suc depth) _ = none

-- The text behind the first newline.
unfoldable pub after_line : Text → Option Text
after_line [] = none
after_line (c ∷ s) = let rest = after_line s in if c == b'\n' then some s else rest

abbrev pub is_line_comment : Text → Bool
is_line_comment (a ∷ b ∷ s) = a == b'-' && b == b'-'
is_line_comment _ = false

abbrev pub is_block_comment : Text → Bool
is_block_comment (a ∷ b ∷ s) = a == b'/' && b == b'*'
is_block_comment _ = false

abbrev pub behind : Text → Text
behind (a ∷ b ∷ s) = s
behind _ = []

-- Every call but the first is on a shorter text: the length is fuel enough (Guard/Comments).
unfoldable pub strip_within : ℕ → Text → Text
strip_within zero sql = trim_start sql
strip_within (suc fuel) sql =
    let trimmed = trim_start sql in
    elim (is_line_comment trimmed) [
      | true ↦ elim (after_line trimmed) [ none ↦ [] | some rest ↦ strip_within fuel rest ]
      | false ↦ elim (is_block_comment trimmed) [
        | true ↦ elim (skip_block 1 (behind trimmed)) [
          | none ↦ []
          | some rest ↦ strip_within fuel rest
        ]
        | false ↦ trimmed
      ]
    ]

unfoldable pub strip_leading_comments : Text → Text
unfolding strip_within skip_block after_line
strip_leading_comments sql = strip_within (length sql) sql

pub data StatementClass : Type 0 where
  read_only data_change call ddl privilege other : StatementClass

pub data WriteGate : Type 0 where
  allow : WriteGate
  needs_flag : StatementClass → WriteGate

abbrev pub ddl_keywords : List Text
ddl_keywords =
    codes "DROP" ∷ codes "TRUNCATE" ∷ codes "ALTER" ∷ codes "CREATE" ∷ codes "RENAME" ∷ []

abbrev pub privilege_keywords : List Text
privilege_keywords = codes "GRANT" ∷ codes "REVOKE" ∷ []

abbrev pub data_change_keywords : List Text
data_change_keywords =
    codes "INSERT"
    ∷ codes "UPDATE"
    ∷ codes "DELETE"
    ∷ codes "REPLACE"
    ∷ codes "MERGE"
    ∷ codes "UPSERT"
    ∷ codes "LOAD"
    ∷ codes "IMPORT"
    ∷ []

abbrev pub data_change_lead_keywords : List Text
data_change_lead_keywords = codes "COPY" ∷ codes "IMPORT" ∷ []

abbrev pub call_keywords : List Text
call_keywords =
    codes "CALL"
    ∷ codes "EXEC"
    ∷ codes "EXECUTE"
    ∷ codes "DO"
    ∷ codes "DECLARE"
    ∷ codes "PERFORM"
    ∷ []

abbrev pub read_only_keywords : List Text
read_only_keywords =
    codes "SELECT"
    ∷ codes "EXPLAIN"
    ∷ codes "SHOW"
    ∷ codes "DESC"
    ∷ codes "DESCRIBE"
    ∷ codes "TABLE"
    ∷ codes "VALUES"
    ∷ codes "SUMMARIZE"
    ∷ []

-- `upper.split(not a word character).any(|word| word == keyword)`
unfoldable pub is_keyword : Text → Text → Bool
unfolding split is_word one_of
is_keyword upper keyword = one_of keyword (split (λ c. not (is_word c)) upper)

unfoldable pub any_keyword : List Text → Text → Bool
unfolding is_keyword
any_keyword [] upper = false
any_keyword (k ∷ ks) upper = is_keyword upper k || any_keyword ks upper

-- `upper.split_whitespace().next().unwrap_or("")`, trimmed to a word.
unfoldable pub first_word : Text → Text
unfolding drop_while drop_end_while take_until is_space is_word
first_word upper =
    drop_end_while (λ c. not (is_word c))
      (drop_while (λ c. not (is_word c)) (take_until is_space (trim_start upper)))

-- `BEGIN … END`, with semicolons and spaces behind it or none
abbrev is_block : Text → Bool
is_block upper =
    ends_with (codes "END") (trim_end (drop_end_while (λ c. c == b';') (trim_end upper)))

-- The branches of `classify_statement`, on the first word.
unfoldable pub classify_upper : Text → Text → StatementClass
unfolding one_of any_keyword contains ends_with drop_end_while is_space
classify_upper first upper =
    if one_of first ddl_keywords
    then ddl
    else if one_of first privilege_keywords
    then privilege
    else if one_of first data_change_keywords || one_of first data_change_lead_keywords
    then data_change
    else if one_of first call_keywords
    then call
    else if text_eq first (codes "WITH")
    then (if any_keyword ddl_keywords upper
        then ddl
        else if any_keyword privilege_keywords upper
        then privilege
        else if any_keyword data_change_keywords upper
            || any_keyword data_change_lead_keywords upper
            || contains (codes " INTO ") upper
        then data_change
        else if any_keyword call_keywords upper
        then call
        else read_only)
    else if text_eq first (codes "BEGIN")
    then (if is_block upper then call else other)
    else if one_of first read_only_keywords
    then (if text_eq first (codes "SELECT") && contains (codes " INTO ") upper
        then data_change
        else read_only)
    else other

abbrev pub gate : StatementClass → Bool → Bool → WriteGate
gate privilege allow_write allow_ddl = needs_flag privilege
gate ddl allow_write allow_ddl = if allow_ddl then allow else needs_flag ddl
gate data_change allow_write allow_ddl = if allow_write then allow else needs_flag data_change
gate call allow_write allow_ddl = if allow_write then allow else needs_flag call
gate read_only allow_write allow_ddl = allow
gate other allow_write allow_ddl = allow

module _ (wide : ℕ → Text) where
  unfoldable pub upper_statement : Text → Text
  unfolding strip_leading_comments drop_while drop_end_while is_space to_uppercase
  upper_statement sql = to_uppercase wide (strip_leading_comments (trim sql))

  unfoldable pub classify_statement : Text → StatementClass
  unfolding upper_statement classify_upper first_word
  classify_statement sql =
      let upper = upper_statement sql in classify_upper (first_word upper) upper

  unfoldable pub write_gate : Text → Bool → Bool → WriteGate
  unfolding classify_statement
  write_gate sql allow_write allow_ddl = gate (classify_statement sql) allow_write allow_ddl

  unfoldable pub is_read_only_mcp : Text → List Text → Bool
  unfolding upper_statement starts_with_any
  is_read_only_mcp sql prefixes = starts_with_any prefixes (upper_statement sql)

  unfoldable pub is_read_only_query : Text → Bool
  unfolding upper_statement starts_with_any
  is_read_only_query sql =
      starts_with_any
        (codes "SELECT"
          ∷ codes "EXPLAIN"
          ∷ codes "SHOW"
          ∷ codes "DESC"
          ∷ codes "DESCRIBE"
          ∷ codes "WITH"
          ∷ [])
        (upper_statement sql)

-- A script fragment that is more than comments and blanks.
unfoldable pub has_statement : Text → Bool
unfolding strip_leading_comments drop_while drop_end_while is_space
has_statement fragment = not (null (trim (strip_leading_comments (trim fragment))))
  where
    null : Text → Bool
    null [] = true
    null (c ∷ s) = false
