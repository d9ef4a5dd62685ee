-- ===== src/Audit/Event.antt =====
-- `ConnectionInfo::from_url` of dbcli/src/audit/event.rs. Texts are their bytes in UTF-8, and
-- `from_utf8_lossy`, which percent_decode ends with, is an argument.
pub mod Secret
use hepta_dbcli.Prelude.{
  ℕ, suc, ◌+◌, ◌==◌, Bool, List, [], ◌∷◌, Option, none, some, length, take, drop, if◌then◌else◌,
}
use hepta_dbcli.Text.{Text, codes, text_eq, take_until}
use hepta_dbcli.Number.{parse_u16}
use hepta_dbcli.Audit.Scrub.{find, position, rfind, or_else, percent_decode}

pub record ConnectionInfo : Type 0 where
  pub name : Text
  pub driver : Text
  pub user : Option Text
  pub host : Option Text
  pub port : Option ℕ
  pub database : Option Text
  pub read_only_session : Bool

-- A character as a pattern.
abbrev pub is_char : ℕ → ℕ → Bool
is_char c d = d == c

unfoldable pub non_empty : Text → Option Text
non_empty [] = none
non_empty (c ∷ s) = some (c ∷ s)

-- `strip_prefix` of a character
abbrev pub strip_char : ℕ → Text → Option Text
strip_char c [] = none
strip_char c (d ∷ s) = if d == c then some s else none

abbrev port_behind : Option Text → Option ℕ
unfolding parse_u16
port_behind none = none
port_behind (some p) = parse_u16 p

unfoldable pub split_host_port : Text → Option Text × Option ℕ
unfolding position rfind non_empty port_behind
split_host_port [] = (none, none)
split_host_port (c ∷ s) = elim (position (is_char b']') (c ∷ s)) [
  | some close ↦
      (some (take (suc close) (c ∷ s)), port_behind (strip_char b':' (drop (suc close) (c ∷ s))))
  | none ↦ elim (rfind b':' (c ∷ s)) [
    | some colon ↦ (non_empty (take colon (c ∷ s)), parse_u16 (drop (suc colon) (c ∷ s)))
    | none ↦ (non_empty (c ∷ s), none)
  ]
]

-- The scheme and what is behind it.
unfoldable pub split_scheme : Text → Text × Text
unfolding find
split_scheme url = elim (find (codes "://") url) [
  | some i ↦ (take i url, drop (i + 3) url)
  | none ↦ ([], url)
]

-- The user and password, if there are any, and the host with the port.
unfoldable pub split_authority : Text → Option Text × Text
unfolding rfind
split_authority authority = elim (rfind b'@' authority) [
  | some at ↦ (some (take at authority), drop (suc at) authority)
  | none ↦ (none, authority)
]

abbrev pub unknown_if_empty : Text → Text
unknown_if_empty [] = codes "unknown"
unknown_if_empty (c ∷ s) = c ∷ s

module _ (from_utf8_lossy : List ℕ → Text) where
  abbrev pub decoded : Option Text → Option Text
  unfolding percent_decode
  decoded none = none
  decoded (some s) = some (from_utf8_lossy (percent_decode s))

  abbrev pub user_of : Option Text → Option Text
  unfolding take_until non_empty decoded
  user_of none = none
  user_of (some ui) = decoded (non_empty (take_until (is_char b':') ui))

  abbrev pub database_of : Option Text → Option Text
  unfolding non_empty decoded
  database_of none = none
  database_of (some d) = decoded (non_empty d)

  -- The part for the servers, of the scheme and what is in front of the query.
  unfoldable pub server_info : Text → Text → Text → Bool → ConnectionInfo
  unfolding split_authority split_host_port position user_of database_of decoded
  server_info name scheme rest read_only =
      let end = or_else (position (is_char b'/') rest) (length rest) in
      let login = split_authority (take end rest) in
      let address = split_host_port login.1 in
      record {
        name = name;
        driver = unknown_if_empty scheme;
        user = user_of login.0;
        host = decoded address.0;
        port = address.1;
        database = database_of (strip_char b'/' (drop end rest));
        read_only_session = read_only;
      }

  unfoldable pub from_url : Text → Text → Bool → ConnectionInfo
  unfolding split_scheme take_until text_eq server_info non_empty
  from_url name url read_only =
      let parts = split_scheme url in
      let rest = take_until (is_char b'?') parts.1 in
      if text_eq parts.0 (codes "duckdb")
      then record {
        name = name;
        driver = parts.0;
        user = none;
        host = none;
        port = none;
        database = non_empty rest;
        read_only_session = read_only;
      }
      else server_info name parts.0 rest read_only
