-- ===== src/Bucket.antt =====
-- Bucketed comparison, dbcli/src/delta_diff/bucket_diff.rs and `ChecksumTuple` of checksum.rs: which
-- buckets differ by their checksums, and the comparison of two buckets' hash counts on the client.
pub mod Checksum
pub mod Hashes
pub mod Ascii
pub mod Multiset
mod Examples
use hepta_dbcli.Prelude.{
  ℕ, zero, suc, ◌+◌, ◌-◌, ◌*◌, ◌/◌, ◌%◌, ◌^◌, min, max, ltb, leb, ◌==◌, Bool, true, false, not,
  ◌&&◌, List, [], ◌∷◌, ◌++◌, map, Option, none, some, if◌then◌else◌,
}
use hepta_dbcli.Prelude.Int.{pos, negsuc}
use hepta_dbcli.Prelude.Sort.{sort}
use hepta_dbcli.Prelude.Assoc.{find, upsert}
use hepta_dbcli.Number.{parse_u64}
use hepta_dbcli.Text.{Text, codes, text_eq, trim, within}
use hepta_dbcli.Report.{
  Value, null, boolean, integer, decimal, string, nested, Row, single, DiffRow, DiffStatus,
  missing_left, missing_right, digits, text_le,
}

-- How many bytes the code point takes in UTF-8.
abbrev pub byte_len : ℕ → ℕ
byte_len c = if ltb c 0x80 then 1 else if ltb c 0x800 then 2 else if ltb c 0x10000 then 3 else 4

abbrev pub cons_to : ℕ → Option Text → Option Text
cons_to c none = none
cons_to c (some t) = some (c ∷ t)

-- `&s[..12.min(s.len())]`: at most `n` bytes from the front; `none` is the panic of a cut within a
-- character.
unfoldable pub byte_prefix : ℕ → Text → Option Text
byte_prefix n [] = some []
byte_prefix n (c ∷ s) =
    let rest = byte_prefix (n - byte_len c) s in
    if n == 0 then some [] else if leb (byte_len c) n then cons_to c rest else none

abbrev pub or_zero : Option ℕ → ℕ
or_zero none = 0
or_zero (some n) = n

-- The hash of a row: its first value, if that is a text.
abbrev pub row_hash : Row → Option Text
row_hash (string h ∷ vs) = some h
row_hash _ = none

-- The count of a row: its second value.
abbrev pub row_count : Row → ℕ
unfolding parse_u64
row_count (v ∷ integer (pos n) ∷ vs) = n
row_count (v ∷ string s ∷ vs) = or_zero (parse_u64 (trim s))
row_count _ = 0

abbrev pub HashCounts : Type 0
HashCounts = List (Text × ℕ)

abbrev pub insert_count : Option Text → ℕ → HashCounts → HashCounts
unfolding upsert
insert_count none c m = m
insert_count (some h) c m = upsert text_eq (λ o. c) h m

unfoldable pub count_map_from : HashCounts → List Row → HashCounts
unfolding insert_count row_count
count_map_from m [] = m
count_map_from m (row ∷ rows) = count_map_from (insert_count (row_hash row) (row_count row) m) rows

unfoldable pub count_map : List Row → HashCounts
unfolding count_map_from
count_map rows = count_map_from [] rows

-- `m.get(h).copied().unwrap_or(0)`
abbrev pub count_of : HashCounts → Text → ℕ
unfolding find
count_of m h = or_zero (find text_eq m h)

-- `dedup`: an element goes if it is equal to the one in front of it
abbrev pub cons_new : Text → List Text → List Text
unfolding text_eq
cons_new h [] = h ∷ []
cons_new h (k ∷ ks) = if text_eq h k then k ∷ ks else h ∷ k ∷ ks

unfoldable pub dedup : List Text → List Text
unfolding cons_new
dedup [] = []
dedup (h ∷ hs) = cons_new h (dedup hs)

-- `format!("{}…(×{}/{})", &h[..12.min(h.len())], lc, rc)`
abbrev pub count_label : Text → ℕ → ℕ → Option Text → Option Value
unfolding digits
count_label h lc rc none = none
count_label h lc rc (some prefix) =
    some (string (prefix ++ codes "…(×" ++ digits lc ++ codes "/" ++ digits rc ++ codes ")"))

abbrev pub hash_row : Text → ℕ → ℕ → Value → DiffRow
hash_row h lc rc key = record {
  key = single key;
  left = some (string h ∷ integer (pos lc) ∷ []);
  right = some (string h ∷ integer (pos rc) ∷ []);
  status = if ltb rc lc then missing_right else missing_left;
  confirmed = true;
}

abbrev pub push_row : Text → ℕ → ℕ → Option Value → Option (List DiffRow) → Option (List DiffRow)
push_row h lc rc none rows = none
push_row h lc rc (some key) none = none
push_row h lc rc (some key) (some rows) = some (hash_row h lc rc key ∷ rows)

unfoldable pub diff_hashes : HashCounts → HashCounts → List Text → Option (List DiffRow)
unfolding count_of byte_prefix count_label
diff_hashes lm rm [] = some []
diff_hashes lm rm (h ∷ hs) =
    let lc = count_of lm h in
    let rc = count_of rm h in
    let rest = diff_hashes lm rm hs in
    if lc == rc then rest else push_row h lc rc (count_label h lc rc (byte_prefix 12 h)) rest

abbrev pub hashes : HashCounts → List Text
hashes m = map (λ (h, c). h) m

-- `none` is the panic of `byte_prefix`.
unfoldable pub multiset_diff : List Row → List Row → Option (List DiffRow)
unfolding count_map diff_hashes dedup sort text_le
multiset_diff lrows rrows =
    let lm = count_map lrows in
    let rm = count_map rrows in diff_hashes lm rm (dedup (sort text_le (hashes lm ++ hashes rm)))
