-- ===== src/Audit/Scrub/Decode.antt =====
-- Percent escapes and `percent_decode` of dbcli/src/audit/scrub.rs.
use hepta_dbcli.Prelude.{ℕ, ◌+◌, ◌*◌, ◌<◌, List, [], ◌∷◌, ◌≢◌}

-- The hexadecimal digits of the numbers below 16, in ASCII.
pub data IsHex : ℕ → ℕ → Type 0 where
  decimal : (d : ℕ) → d < 10 → IsHex d (48 + d)
  small : (d : ℕ) → d < 6 → IsHex (10 + d) (97 + d)
  large : (d : ℕ) → d < 6 → IsHex (10 + d) (65 + d)

-- The ways to write bytes: a byte that is no percent sign as it stands, and any as an escape, with small or
-- large letters.
pub data Encodes : List ℕ → List ℕ → Type 0 where
  nothing : Encodes [] []
  plain : (b : ℕ) (bs s : List ℕ) → b ≢ b'%' → Encodes bs s → Encodes (b ∷ bs) (b ∷ s)
  escaped :
      (hi lo h l : ℕ) (bs s : List ℕ)
      → IsHex hi h
      → IsHex lo l
      → Encodes bs s
      → Encodes ((hi * 16 + lo) ∷ bs) (b'%' ∷ h ∷ l ∷ s)
