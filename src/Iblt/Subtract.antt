-- ===== src/Iblt/Subtract.antt =====
-- `subtract` against the cells of the two summaries.
use hepta_dbcli.Prelude.{
  ℕ, Bool, true, false, ◌&&◌, [], ◌∷◌, Option, none, some, ◌≡◌, refl, sym, ap, ◌∙◌, arith,
  Bool-cases, inl, inr, List,
}
use hepta_dbcli.Prelude.Int.{int_laws}
use hepta_dbcli.Prelude.Xor.{bit_xor, zero-bit_xor, bit_xor_comm}
use hepta_dbcli.Iblt.{
  Slices, Cell, Entry, Place, Summary, ok, place_eq, empty_cell, no_slices, xor_slices, add_cell,
  sub_cell, get, cell_at, merge_into, subtract, peel,
}
use hepta_dbcli.Iblt.Cells.{
  cell_path, slices_path, add_cell_comm, empty-add_cell, add-sub_cell, cell_at-nil, cell_at-cons,
  cell_at-update,
}
use hepta_dbcli.Iblt.Sound.{sketch, peel-sketch}

abbrev is_missing : Option Cell → Bool
is_missing none = true
is_missing (some c) = false

-- No place occurs twice, as in every hash map.
abbrev pub has_unique_places : Summary → Bool
has_unique_places [] = true
has_unique_places ((p, c) ∷ s) = is_missing (get s p) && has_unique_places s

missing-cell_at : (o : Option Cell) → is_missing o ≡ true → o ≡ none
missing-cell_at none h = refl
missing-cell_at (some c) h = absurd (ground arith)

place_eq_refl : (p : Place) → place_eq p p ≡ true
place_eq_refl (g, b) = ground arith

place_eq_path : (p q : Place) → place_eq p q ≡ true → p ≡ q
place_eq_path (g, b) (h, c) e = λ i. (same_group i, same_bucket i)
  where
    same_group : g ≡ h
    same_group = ground arith

    same_bucket : b ≡ c
    same_bucket = ground arith

module _ (f : Cell → Cell → Cell) where
  cell_at-merge_missing :
      (p : Place) (s out : Summary)
      → get s p ≡ none
      → cell_at (merge_into f out s) p ≡ cell_at out p
  unfolding get merge_into
  cell_at-merge_missing p [] out h = refl
  cell_at-merge_missing p ((q, c) ∷ s) out h = elim (Bool-cases (place_eq q p)) [
    | inl e ↦ absurd (ground arith)
    | inr e ↦
        cell_at-merge_missing p s _ (ground arith) ∙ cell_at-update (λ d. f d c) q p out ∙ rw e refl
  ]

  module _ (keeps : (c : Cell) → f c empty_cell ≡ c) where
    cell_at-merge_into :
        (p : Place) (s out : Summary)
        → has_unique_places s ≡ true
        → cell_at (merge_into f out s) p ≡ f (cell_at out p) (cell_at s p)
    unfolding merge_into
    cell_at-merge_into p [] out h = rw (cell_at-nil p) (sym (keeps (cell_at out p)))
    cell_at-merge_into p ((q, c) ∷ s) out h = elim (Bool-cases (place_eq q p)) [
      | inl e ↦
          cell_at-merge_missing p s _
            (sym (ap (get s) (place_eq_path q p e)) ∙ missing-cell_at (get s q) (ground arith))
          ∙ cell_at-update (λ d. f d c) q p out
          ∙ rw (cell_at-cons q p c s, e) refl
      | inr e ↦
          cell_at-merge_into p s _ (ground arith)
          ∙ rw (cell_at-update (λ d. f d c) q p out, cell_at-cons q p c s, e) refl
    ]

bit_xor_zero : (n : ℕ) → bit_xor n 0 ≡ n
bit_xor_zero n = bit_xor_comm n 0 ∙ zero-bit_xor n

add_cell-empty : (c : Cell) → add_cell c empty_cell ≡ c
add_cell-empty c = add_cell_comm c empty_cell ∙ empty-add_cell c

xor_slices-no : (a : Slices) → xor_slices a no_slices ≡ a
unfolding xor_slices
xor_slices-no a =
    slices_path (bit_xor_zero a.s1) (bit_xor_zero a.s2) (bit_xor_zero a.s3) (bit_xor_zero a.s4)

sub_cell-empty : (c : Cell) → sub_cell c empty_cell ≡ c
unfolding sub_cell
sub_cell-empty c = cell_path (omega int_laws) (bit_xor_zero c.key_xor) (xor_slices-no c.val_xor)

-- Every cell of the difference is the difference of the cells.
pub cell_at-subtract :
    (l r : Summary) (p : Place)
    → has_unique_places l ≡ true
    → has_unique_places r ≡ true
    → cell_at (subtract l r) p ≡ sub_cell (cell_at l p) (cell_at r p)
unfolding subtract
cell_at-subtract l r p hl hr =
    cell_at-merge_into sub_cell sub_cell-empty p r _ hr
    ∙ ap (λ (c : Cell). sub_cell c (cell_at r p))
        (cell_at-merge_into add_cell add_cell-empty p l [] hl
          ∙ ap (λ (c : Cell). add_cell c (cell_at l p)) (cell_at-nil p)
          ∙ empty-add_cell (cell_at l p))

-- When the difference of two summaries is peeled, the left one is the right one together with the
-- entries that were returned, each put into its four cells.
pub peel-subtract :
    (l r : Summary) (m : ℕ) (es : List Entry) (p : Place)
    → has_unique_places l ≡ true
    → has_unique_places r ≡ true
    → peel (subtract l r) m ≡ ok es
    → cell_at l p ≡ add_cell (sketch m es p) (cell_at r p)
peel-subtract l r m es p hl hr e =
    sym (add-sub_cell (cell_at l p) (cell_at r p))
    ∙ ap (λ (c : Cell). add_cell c (cell_at r p))
        (sym (cell_at-subtract l r p hl hr) ∙ peel-sketch (subtract l r) m es p e)
