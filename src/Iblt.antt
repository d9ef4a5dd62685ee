-- ===== src/Iblt.antt =====
-- The invertible Bloom lookup table of dbcli/src/delta_diff/iblt_diff.rs: two summaries are
-- subtracted cell by cell, and the differing rows are peeled out of the result.
pub mod Cells
pub mod Sound
pub mod Subtract
pub mod Classify
mod Examples
use hepta_dbcli.Prelude.{
  ℕ, zero, suc, ◌+◌, ◌-◌, ◌*◌, ◌/◌, ◌%◌, ◌^◌, max, Bool, true, false, not, ◌&&◌, ◌||◌, List, [],
  ◌∷◌, ◌++◌, map, Option, none, some, ltb, ◌==◌, if◌then◌else◌,
}
use hepta_dbcli.Prelude.Int.{ℤ, pos, negsuc, pos_part, neg_part, ◌+ℤ◌, ◌-ℤ◌}
use hepta_dbcli.Prelude.Xor.{bit_xor}

-- `[u64; 4]`: the four slices of a row's hash.
pub record Slices : Type 0 where
  pub s1 : ℕ
  pub s2 : ℕ
  pub s3 : ℕ
  pub s4 : ℕ

-- `cnt` is an `i64` in the source. It counts rows, and ℤ leaves its overflow at 2 ^ 63 rows out.
pub record Cell : Type 0 where
  pub cnt : ℤ
  pub key_xor : ℕ
  pub val_xor : Slices

pub record Entry : Type 0 where
  pub key : ℕ
  pub val : Slices
  pub from_left : Bool

-- A cell's place: the sub-table, 1 to 4, and the bucket in it.
abbrev pub Place : Type 0
Place = ℕ × ℕ

-- A hash map as an association list. The order of the list stands for the order in which the map
-- happens to be walked; every theorem is for all orders.
abbrev pub Summary : Type 0
Summary = List (Place × Cell)

abbrev pub place_eq : Place → Place → Bool
place_eq (g, b) (h, c) = g == h && b == c

abbrev pub no_slices : Slices
no_slices = record { s1 = 0; s2 = 0; s3 = 0; s4 = 0 }

-- `Cell::default()`
abbrev pub empty_cell : Cell
empty_cell = record { cnt = pos 0; key_xor = 0; val_xor = no_slices }

unfoldable pub xor_slices : Slices → Slices → Slices
xor_slices a b = record {
  s1 = bit_xor a.s1 b.s1;
  s2 = bit_xor a.s2 b.s2;
  s3 = bit_xor a.s3 b.s3;
  s4 = bit_xor a.s4 b.s4;
}

-- `e.cnt += c.cnt`, `e.key_xor ^= c.key_xor`, `e.val_xor[i] ^= c.val_xor[i]`
unfoldable pub add_cell : Cell → Cell → Cell
unfolding xor_slices
add_cell e c = record {
  cnt = e.cnt +ℤ c.cnt;
  key_xor = bit_xor e.key_xor c.key_xor;
  val_xor = xor_slices e.val_xor c.val_xor;
}

unfoldable pub sub_cell : Cell → Cell → Cell
unfolding xor_slices
sub_cell e c = record {
  cnt = e.cnt -ℤ c.cnt;
  key_xor = bit_xor e.key_xor c.key_xor;
  val_xor = xor_slices e.val_xor c.val_xor;
}

-- `cells.get(&place)`
unfoldable pub get : Summary → Place → Option Cell
get [] p = none
get ((q, c) ∷ s) p = if place_eq q p then some c else get s p

-- `entry(place).or_default()`, then an update of the cell
unfoldable pub update : (Cell → Cell) → Place → Summary → Summary
update f p [] = (p, f empty_cell) ∷ []
update f p ((q, c) ∷ s) = if place_eq q p then (q, f c) ∷ s else (q, c) ∷ update f p s

-- One loop of `subtract`: every cell of `s` is put into `out` by `f`.
unfoldable pub merge_into : (Cell → Cell → Cell) → Summary → Summary → Summary
unfolding update
merge_into f out [] = out
merge_into f out ((p, c) ∷ s) = merge_into f (update (λ e. f e c) p out) s

unfoldable pub subtract : Summary → Summary → Summary
unfolding merge_into add_cell sub_cell
subtract l r = merge_into sub_cell (merge_into add_cell [] l) r

abbrev unit_count : ℤ → Bool
unit_count (pos n) = n == 1
unit_count (negsuc n) = n == 0

-- `cnt == 1 || cnt == -1`
abbrev pub is_pure : Cell → Bool
is_pure c = unit_count c.cnt

abbrev is_positive : ℤ → Bool
is_positive (pos n) = ltb 0 n
is_positive (negsuc n) = false

-- The entry that a pure cell holds: its sign is the side that the row comes from.
abbrev pub entry_of : Cell → Entry
entry_of c = record { key = c.key_xor; val = c.val_xor; from_left = is_positive c.cnt }

-- What one entry puts into a cell: `sign`, `entry.key` and `entry.val`.
abbrev pub unit_cell : Entry → Cell
unit_cell e = record {
  cnt = if e.from_left then pos 1 else negsuc 0;
  key_xor = e.key;
  val_xor = e.val;
}

-- `val_xor[j - 1] % m.max(1)` for the sub-table `j`; `none` is an index out of bounds.
abbrev pub bucket_in : ℕ → Slices → ℕ → Option ℕ
bucket_in m v (suc zero) = some (v.s1 % max m 1)
bucket_in m v (suc (suc zero)) = some (v.s2 % max m 1)
bucket_in m v (suc (suc (suc zero))) = some (v.s3 % max m 1)
bucket_in m v (suc (suc (suc (suc zero)))) = some (v.s4 % max m 1)
bucket_in m v _ = none

-- The four places of an entry, in the order of the loop.
abbrev pub places : ℕ → Slices → List Place
places m v =
    (1, v.s1 % max m 1) ∷ (2, v.s2 % max m 1) ∷ (3, v.s3 % max m 1) ∷ (4, v.s4 % max m 1) ∷ []

-- `stuck` is the source's `Err(())`; `panic` is an index out of bounds.
pub data Peeled {ℓ} (A : Type ℓ) : Type ℓ where
  ok : A → Peeled A
  stuck : Peeled A
  panic : Peeled A

pub record PeelState : Type 0 where
  pub cells : Summary
  pub queue : List Place
  pub entries : List Entry

abbrev pub or_empty : Option Cell → Cell
or_empty none = empty_cell
or_empty (some c) = c

abbrev pub cell_at : Summary → Place → Cell
cell_at s p = or_empty (get s p)

-- `e` is taken out of the cell at `p`, which is queued if that makes it pure.
unfoldable pub remove_at : Entry → Place → PeelState → PeelState
unfolding update sub_cell get
remove_at e p st =
    let cells = update (λ c. sub_cell c (unit_cell e)) p st.cells in
    record st {
      cells = cells;
      queue = if is_pure (cell_at cells p) then st.queue ++ p ∷ [] else st.queue;
    }

unfoldable pub remove_all : Entry → List Place → PeelState → PeelState
unfolding remove_at
remove_all e [] st = st
remove_all e (p ∷ ps) st = remove_all e ps (remove_at e p st)

-- The body of the loop for a place that was taken from the queue: on the bucket that the cell's
-- value names for its sub-table, and on the cell there.
abbrev peel_at : ℕ → ℕ → Cell → PeelState → Option ℕ → Peeled PeelState
peel_at m b c st none = panic
peel_at m b c st (some own) =
    if own == b
    then (let e = entry_of c in
        ok (remove_all e (places m e.val) (record st { entries = st.entries ++ e ∷ [] })))
    else stuck

abbrev peel_cell : ℕ → Place → PeelState → Option Cell → Peeled PeelState
peel_cell m p st none = ok st
peel_cell m (g, b) st (some c) =
    if is_pure c then peel_at m b c st (bucket_in m c.val_xor g) else ok st

unfoldable pub peel_one : ℕ → Place → PeelState → Peeled PeelState
unfolding get remove_all
peel_one m p st = peel_cell m p st (get st.cells p)

abbrev pub continue : Peeled PeelState → (PeelState → Peeled PeelState) → Peeled PeelState
continue (ok st) f = f st
continue stuck f = stuck
continue panic f = panic

-- `budget` is what is left of the event budget.
unfoldable pub peel_loop : ℕ → ℕ → List Place → PeelState → Peeled PeelState
unfolding peel_one
peel_loop m budget [] st = ok st
peel_loop m zero (p ∷ q) st = stuck
peel_loop m (suc budget) (p ∷ q) st =
    continue (peel_one m p (record st { queue = q })) (λ next. peel_loop m budget next.queue next)

-- `cnt.unsigned_abs()`
abbrev pub magnitude : ℤ → ℕ
magnitude c = pos_part c + neg_part c

unfoldable pub total_abs : Summary → ℕ
total_abs [] = 0
total_abs ((p, c) ∷ s) = magnitude c.cnt + total_abs s

unfoldable pub pure_places : Summary → List Place
pure_places [] = []
pure_places ((p, c) ∷ s) = let rest = pure_places s in if is_pure c then p ∷ rest else rest

abbrev slices_eq : Slices → Slices → Bool
slices_eq a b = a.s1 == b.s1 && a.s2 == b.s2 && a.s3 == b.s3 && a.s4 == b.s4

abbrev is_zero : ℤ → Bool
is_zero (pos n) = n == 0
is_zero (negsuc n) = false

-- `*c == Cell::default()`
abbrev pub is_empty : Cell → Bool
is_empty c = is_zero c.cnt && c.key_xor == 0 && slices_eq c.val_xor no_slices

unfoldable pub all_empty : Summary → Bool
all_empty [] = true
all_empty ((p, c) ∷ s) = is_empty c && all_empty s

abbrev finish : Peeled PeelState → Peeled (List Entry)
finish (ok st) = if all_empty st.cells then ok st.entries else stuck
finish stuck = stuck
finish panic = panic

unfoldable pub peel : Summary → ℕ → Peeled (List Entry)
unfolding peel_loop total_abs pure_places all_empty
peel diff m = finish (
    peel_loop m (total_abs diff / 2 * 3 + 1) (pure_places diff)
      (record { cells = diff; queue = []; entries = [] }))
