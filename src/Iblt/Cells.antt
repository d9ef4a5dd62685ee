-- ===== src/Iblt/Cells.antt =====
-- Cells under addition, and `update` of a summary: dbcli/src/delta_diff/iblt_diff.rs.
use hepta_dbcli.Prelude.{
  Bool, true, false, [], ◌∷◌, Option, some, ◌≡◌, refl, arith, Bool-cases, inl, inr, if◌then◌else◌,
}
use hepta_dbcli.Prelude.Int.{int_laws}
use hepta_dbcli.Prelude.Xor.{zero-bit_xor, bit_xor_comm, bit_xor_assoc, bit_xor_cancel}
use hepta_dbcli.Iblt.{
  Slices, Cell, Place, Summary, place_eq, empty_cell, no_slices, xor_slices, add_cell, sub_cell,
  get, update, cell_at, or_empty,
}

module _ {a b : Slices} where
  pub slices_path : a.s1 ≡ b.s1 → a.s2 ≡ b.s2 → a.s3 ≡ b.s3 → a.s4 ≡ b.s4 → a ≡ b
  slices_path p q r s = λ i. record { s1 = p i; s2 = q i; s3 = r i; s4 = s i }

module _ {a b : Cell} where
  pub cell_path : a.cnt ≡ b.cnt → a.key_xor ≡ b.key_xor → a.val_xor ≡ b.val_xor → a ≡ b
  cell_path p q r = λ i. record { cnt = p i; key_xor = q i; val_xor = r i }

xor_slices_comm : (a b : Slices) → xor_slices a b ≡ xor_slices b a
unfolding xor_slices
xor_slices_comm a b =
    slices_path (bit_xor_comm _ _) (bit_xor_comm _ _) (bit_xor_comm _ _) (bit_xor_comm _ _)

xor_slices_assoc : (a b c : Slices) → xor_slices (xor_slices a b) c ≡ xor_slices a (xor_slices b c)
unfolding xor_slices
xor_slices_assoc a b c =
    slices_path (bit_xor_assoc a.s1 b.s1 c.s1) (bit_xor_assoc a.s2 b.s2 c.s2)
      (bit_xor_assoc a.s3 b.s3 c.s3) (bit_xor_assoc a.s4 b.s4 c.s4)

xor_slices_cancel : (a b : Slices) → xor_slices (xor_slices a b) b ≡ a
unfolding xor_slices
xor_slices_cancel a b =
    slices_path (bit_xor_cancel a.s1 b.s1) (bit_xor_cancel a.s2 b.s2) (bit_xor_cancel a.s3 b.s3)
      (bit_xor_cancel a.s4 b.s4)

xor_slices_no : (a : Slices) → xor_slices no_slices a ≡ a
unfolding xor_slices
xor_slices_no a =
    slices_path (zero-bit_xor a.s1) (zero-bit_xor a.s2) (zero-bit_xor a.s3) (zero-bit_xor a.s4)

pub add_cell_comm : (a b : Cell) → add_cell a b ≡ add_cell b a
unfolding add_cell
add_cell_comm a b =
    cell_path (omega int_laws) (bit_xor_comm a.key_xor b.key_xor)
      (xor_slices_comm a.val_xor b.val_xor)

pub add_cell_assoc : (a b c : Cell) → add_cell (add_cell a b) c ≡ add_cell a (add_cell b c)
unfolding add_cell
add_cell_assoc a b c =
    cell_path (omega int_laws) (bit_xor_assoc a.key_xor b.key_xor c.key_xor)
      (xor_slices_assoc a.val_xor b.val_xor c.val_xor)

-- Taking out and putting back.
pub add-sub_cell : (a b : Cell) → add_cell (sub_cell a b) b ≡ a
unfolding add_cell sub_cell
add-sub_cell a b =
    cell_path (omega int_laws) (bit_xor_cancel a.key_xor b.key_xor)
      (xor_slices_cancel a.val_xor b.val_xor)

pub sub-add_cell : (a b : Cell) → sub_cell (add_cell a b) b ≡ a
unfolding add_cell sub_cell
sub-add_cell a b =
    cell_path (omega int_laws) (bit_xor_cancel a.key_xor b.key_xor)
      (xor_slices_cancel a.val_xor b.val_xor)

pub empty-add_cell : (a : Cell) → add_cell empty_cell a ≡ a
unfolding add_cell
empty-add_cell a = cell_path (omega int_laws) (zero-bit_xor a.key_xor) (xor_slices_no a.val_xor)

pub place_eq_trans : (r p q : Place) → place_eq r p ≡ true → place_eq p q ≡ place_eq r q
place_eq_trans r p q e = ground arith

place_eq_apart : (r p q : Place) → place_eq r p ≡ false → place_eq r q ≡ true → place_eq p q ≡ false
place_eq_apart r p q e h = ground arith

pub cell_at-cons :
    (r q : Place) (c : Cell) (s : Summary)
    → cell_at ((r, c) ∷ s) q ≡ (if place_eq r q then c else cell_at s q)
unfolding get
cell_at-cons r q c s = branch (place_eq r q) (get s q)
  where
    branch :
        (b : Bool) (o : Option Cell)
        → or_empty (if b then some c else o) ≡ (if b then c else or_empty o)
    branch true o = refl
    branch false o = refl

pub cell_at-nil : (q : Place) → cell_at [] q ≡ empty_cell
unfolding get
cell_at-nil q = refl

pub cell_at-update :
    (f : Cell → Cell) (p q : Place) (s : Summary)
    → cell_at (update f p s) q ≡ (if place_eq p q then f (cell_at s q) else cell_at s q)
unfolding update
cell_at-update f p q [] = rw (cell_at-cons, cell_at-nil) refl
cell_at-update f p q ((r, c) ∷ s) = elim (Bool-cases (place_eq r p)) [
  | inl e ↦ rw e (
      rw (cell_at-cons r q (f c) s, cell_at-cons r q c s, place_eq_trans r p q e)
        (branch (place_eq r q)))
  | inr e ↦ rw e (
      rw (cell_at-cons r q c (update f p s), cell_at-cons r q c s, cell_at-update f p q s)
        (elim (Bool-cases (place_eq r q)) [
          | inl h ↦ rw (h, place_eq_apart r p q e h)
          | inr h ↦ rw h
        ]))
]
  where
    branch :
        (b : Bool)
        → (if b then f c else cell_at s q)
          ≡ (if b then f (if b then c else cell_at s q) else (if b then c else cell_at s q))
    branch true = refl
    branch false = refl
