-- ===== src/Minus/Answer.antt =====
-- The answer of a server to a set difference, and what a report shows of it:
-- dbcli/src/delta_diff/minus_diff/sql.rs.
use hepta_dbcli.Prelude.{
  ℕ, Bool, true, false, List, [], ◌∷◌, ◌++◌, take, drop, if◌then◌else◌, Option, none, some, ◌≡◌,
}
use hepta_dbcli.Text.{codes, text_eq}
use hepta_dbcli.Report.{
  null, boolean, integer, decimal, string, nested, Row, DiffRow, DiffStatus, missing_left,
  missing_right, modified,
}
use hepta_dbcli.Minus.{side_of}

-- The rows of the answer that a report shows, each with its side, which is true for the left one.
abbrev pub shown : Bool → Option Row → List (Bool × Row)
shown is_left none = []
shown is_left (some r) = (is_left, r) ∷ []

abbrev pub reported : List DiffRow → List (Bool × Row)
reported [] = []
reported (d ∷ ds) = shown true d.left ++ shown false d.right ++ reported ds

-- A row of the answer: whether it is of the left side, and the cells of its columns.
abbrev pub says_left : Row → Bool
unfolding text_eq
says_left (string s ∷ vs) = text_eq s (codes "L")
says_left _ = false

abbrev pub answer_of : ℕ → Row → Bool × Row
answer_of columns row = (says_left row, take columns (drop 1 row))

abbrev pub present : Option Row → Bool
present none = false
present (some r) = true

-- The status tells which sides are there.
abbrev pub StatusFits : DiffRow → Type 0
StatusFits d = (present d.left ≡ on_left d.status) × (present d.right ≡ on_right d.status)
  where
    on_left : DiffStatus → Bool
    on_left missing_left = false
    on_left missing_right = true
    on_left modified = true

    on_right : DiffStatus → Bool
    on_right missing_left = true
    on_right missing_right = false
    on_right modified = true

abbrev pub EachFits : List DiffRow → Type 0
EachFits [] = Unit {0}
EachFits (d ∷ ds) = StatusFits d × EachFits ds

pub side_of-says_left : (row : Row) (b : Bool) → side_of row ≡ some b → says_left row ≡ b
unfolding side_of says_left
side_of-says_left [] b h = cc
side_of-says_left (null ∷ vs) b h = cc
side_of-says_left (boolean x ∷ vs) b h = cc
side_of-says_left (integer z ∷ vs) b h = cc
side_of-says_left (decimal t ∷ vs) b h = cc
side_of-says_left (nested t ∷ vs) b h = cc
side_of-says_left (string s ∷ vs) b h = side (text_eq s (codes "L")) (text_eq s (codes "R")) h
  where
    side : (l r : Bool) → (if l then some true else if r then some false else none) ≡ some b → l ≡ b
    side true r h = cc
    side false true h = cc
    side false false h = cc
