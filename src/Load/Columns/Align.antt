-- ===== src/Load/Columns/Align.antt =====
-- The alignment of a file's row with the columns that are to be inserted.
use hepta_dbcli.Prelude.{false, List, [], ◌∷◌, ◌++◌, ◌≡◌}
use hepta_dbcli.Text.{Text}
use hepta_dbcli.Load.Columns.{named}

-- Each name of the second list is new, up to the case of ASCII letters.
abbrev pub AllNew : List Text → List Text → Type 0
AllNew seen [] = Unit
AllNew seen (c ∷ cs) = (named c seen ≡ false) × AllNew (seen ++ c ∷ []) cs
