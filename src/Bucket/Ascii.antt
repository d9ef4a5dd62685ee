-- ===== src/Bucket/Ascii.antt =====
-- Hashes that are printed in ASCII, and the cut of a hash to its first bytes.
use mathlib.Core.Path.{subst}
use hepta_dbcli.Prelude.{
  ℕ, zero, suc, ◌-◌, ltb, leb, ◌==◌, true, false, List, [], ◌∷◌, Option, none, some, ◌≡◌, refl, sym,
  ◌∙◌, arith, Bool-cases, if-true, inl, inr,
}
use hepta_dbcli.Text.{Text, one_of}
use hepta_dbcli.Text.Laws.{AllOf}
use hepta_dbcli.Report.{Row}
use hepta_dbcli.Bucket.{
  row_hash, row_count, HashCounts, insert_count, count_map_from, count_map, hashes, byte_len,
  byte_prefix,
}
use hepta_dbcli.Bucket.Hashes.{same_text, one_of-upsert, all_hashes, one_of-all_hashes}

-- A hash is printed in ASCII, as its hexadecimal digits are.
abbrev pub IsAscii : Text → Type 0
IsAscii h = AllOf (λ c. ltb c 128) h

abbrev pub HasAscii : Option Text → Type 0
HasAscii none = Unit {0}
HasAscii (some h) = IsAscii h

abbrev pub AsciiHashes : List Row → Type 0
AsciiHashes [] = Unit {0}
AsciiHashes (row ∷ rows) = HasAscii (row_hash row) × AsciiHashes rows

abbrev pub Has {ℓ} : {A : Type ℓ} → Option A → Type ℓ
Has {A = A} o = (a : A) × (o ≡ some a)

pub byte_len-IsAscii : (c : ℕ) → ltb c 128 ≡ true → byte_len c ≡ 1
byte_len-IsAscii c h = if-true _ _ h

pub one_less : (n : ℕ) → suc n - 1 ≡ n
one_less n = omega arith

pub not_zero : (n : ℕ) → (suc n == 0) ≡ false
not_zero n = ground arith

pub one_fits : (n : ℕ) → leb 1 (suc n) ≡ true
one_fits n = ground arith

pub byte_prefix-IsAscii : (n : ℕ) (h : Text) → IsAscii h → Has (byte_prefix n h)
unfolding byte_prefix
byte_prefix-IsAscii n [] a = ([], refl)
byte_prefix-IsAscii zero (c ∷ h) a = ([], refl)
byte_prefix-IsAscii (suc n) (c ∷ h) (a, b) =
    let (t, e) = byte_prefix-IsAscii n h b in
    (c ∷ t, rw (byte_len-IsAscii c a, one_less n, not_zero n, one_fits n, e) refl)

pub insert_count-IsAscii :
    (o : Option Text) (c : ℕ) (m : HashCounts)
    → HasAscii o
    → ((h : Text) → one_of h (hashes m) ≡ true → IsAscii h)
    → (h : Text) → one_of h (hashes (insert_count o c m)) ≡ true
    → IsAscii h
unfolding insert_count
insert_count-IsAscii none c m a b h e = b h e
insert_count-IsAscii (some k) c m a b h e = elim (one_of-upsert h k c m e) [
  | inl t ↦ subst IsAscii (same_text.eq_path k h t) a
  | inr t ↦ b h t
]

pub count_map_from-IsAscii :
    (m : HashCounts) (rows : List Row)
    → AsciiHashes rows
    → ((h : Text) → one_of h (hashes m) ≡ true → IsAscii h)
    → (h : Text) → one_of h (hashes (count_map_from m rows)) ≡ true
    → IsAscii h
unfolding count_map_from
count_map_from-IsAscii m [] a b = b
count_map_from-IsAscii m (row ∷ rows) (a, as') b =
    count_map_from-IsAscii (insert_count (row_hash row) (row_count row) m) rows as'
      (insert_count-IsAscii (row_hash row) (row_count row) m a b)

pub nothing : (k : Text) → one_of k [] ≡ true → IsAscii k
unfolding one_of
nothing k n = absurd (ground arith)

pub all_hashes-IsAscii :
    (l r : List Row)
    → AsciiHashes l
    → AsciiHashes r
    → (h : Text) → one_of h (all_hashes l r) ≡ true
    → IsAscii h
unfolding count_map
all_hashes-IsAscii l r a b h e =
    let side = sym (one_of-all_hashes h l r) ∙ e in
    elim (Bool-cases (one_of h (hashes (count_map l)))) [
      | inl t ↦ count_map_from-IsAscii [] l a nothing h t
      | inr f ↦ count_map_from-IsAscii [] r b nothing h (ground arith)
    ]
