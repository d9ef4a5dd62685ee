-- ===== src/Iblt/Sound.antt =====
-- The entries that `peel` returns against the summary: a specification of summaries as sketches of
-- entries, and what every step of peeling keeps.
use mathlib.Core.Path.{subst}
use hepta_dbcli.Prelude.{
  ℕ, zero, suc, ◌+◌, ◌*◌, ◌/◌, ◌%◌, ◌<◌, max, Bool, true, false, List, [], ◌∷◌, ◌++◌, Option, none,
  some, ◌≡◌, refl, sym, ap, ◌∙◌, arith, ◌==◌, if◌then◌else◌, Bool-cases, inl, inr,
}
use hepta_dbcli.Iblt.{
  Slices, Cell, Entry, Place, Summary, place_eq, empty_cell, add_cell, sub_cell, get, cell_at,
  is_pure, entry_of, unit_cell, bucket_in, places, Peeled, ok, stuck, panic, PeelState, remove_at,
  remove_all, peel_at, peel_cell, peel_one, continue, peel_loop, total_abs, pure_places, is_empty,
  all_empty, finish, peel,
}
use hepta_dbcli.Iblt.Cells.{
  add_cell_comm, add_cell_assoc, add-sub_cell, empty-add_cell, cell_path, slices_path, cell_at-nil,
  cell_at-cons, cell_at-update,
}

-- The specification of a summary, as the SQL of the dialects builds it: a row is put into the one
-- bucket of each sub-table that its hash names, with the sign of its side.
abbrev is_bucket : Option ℕ → ℕ → Bool
is_bucket none b = false
is_bucket (some own) b = own == b

abbrev pub owns : ℕ → Entry → Place → Bool
owns m e (g, b) = is_bucket (bucket_in m e.val g) b

abbrev pub put : Bool → Entry → Cell → Cell
put true e c = add_cell c (unit_cell e)
put false e c = c

abbrev pub sketch : ℕ → List Entry → Place → Cell
sketch m [] p = empty_cell
sketch m (e ∷ es) p = put (owns m e p) e (sketch m es p)

put_comm : (a b : Bool) (e f : Entry) (c : Cell) → put a e (put b f c) ≡ put b f (put a e c)
put_comm true true e f c =
    add_cell_assoc c (unit_cell f) (unit_cell e)
    ∙ ap (add_cell c) (add_cell_comm (unit_cell f) (unit_cell e))
    ∙ sym (add_cell_assoc c (unit_cell e) (unit_cell f))
put_comm true false e f c = refl
put_comm false true e f c = refl
put_comm false false e f c = refl

sketch-append :
    (m : ℕ) (es : List Entry) (e : Entry) (p : Place)
    → sketch m (es ++ e ∷ []) p ≡ put (owns m e p) e (sketch m es p)
sketch-append m [] e p = refl
sketch-append m (f ∷ es) e p =
    ap (put (owns m f p) f) (sketch-append m es e p) ∙ put_comm (owns m f p) (owns m e p) f e _

abbrev when : Bool → (Cell → Cell) → Cell → Cell
when t f c = if t then f c else c

past : (k g : ℕ) → k < 5 → (k == suc (suc (suc (suc (suc g))))) ≡ false
past k g h = ground arith

-- Of the four places of an entry, the one in the cell's own sub-table decides.
when-places :
    (f : Cell → Cell) (c : Cell) (m : ℕ) (v : Slices) (g b : ℕ)
    → when (place_eq (4, v.s4 % max m 1) (g, b)) f (
        when (place_eq (3, v.s3 % max m 1) (g, b)) f (
          when
            (place_eq (2, v.s2 % max m 1) (g, b))
            f
            (when (place_eq (1, v.s1 % max m 1) (g, b)) f c)))
      ≡ when (is_bucket (bucket_in m v g) b) f c
when-places f c m v zero b = refl
when-places f c m v (suc zero) b = refl
when-places f c m v (suc (suc zero)) b = refl
when-places f c m v (suc (suc (suc zero))) b = refl
when-places f c m v (suc (suc (suc (suc zero)))) b = refl
when-places f c m v (suc (suc (suc (suc (suc g))))) b =
    rw (
      past 4 g (omega arith),
      past 3 g (omega arith),
      past 2 g (omega arith),
      past 1 g (omega arith),
    )

abbrev take_out : Entry → Cell → Cell
take_out e c = sub_cell c (unit_cell e)

cell_at-remove_all :
    (m : ℕ) (e : Entry) (st : PeelState) (p : Place)
    → cell_at (remove_all e (places m e.val) st).cells p
      ≡ when (owns m e p) (take_out e) (cell_at st.cells p)
unfolding remove_all
cell_at-remove_all m e st (g, b) =
    cell_at-update (take_out e) (4, e.val.s4 % max m 1) (g, b) _
    ∙ ap (when (place_eq (4, e.val.s4 % max m 1) (g, b)) (take_out e)) (
        cell_at-update (take_out e) (3, e.val.s3 % max m 1) (g, b) _
        ∙ ap (when (place_eq (3, e.val.s3 % max m 1) (g, b)) (take_out e)) (
            cell_at-update (take_out e) (2, e.val.s2 % max m 1) (g, b) _
            ∙ ap (when (place_eq (2, e.val.s2 % max m 1) (g, b)) (take_out e))
                (cell_at-update (take_out e) (1, e.val.s1 % max m 1) (g, b) st.cells)))
    ∙ when-places (take_out e) (cell_at st.cells (g, b)) m e.val g b

entries-remove_all :
    (e : Entry) (ps : List Place) (st : PeelState) → (remove_all e ps st).entries ≡ st.entries
unfolding remove_all
entries-remove_all e [] st = refl
entries-remove_all e (p ∷ ps) st = entries-remove_all e ps (remove_at e p st)

-- What the cells and the entries of a state hold together.
abbrev total : ℕ → PeelState → Place → Cell
total m st p = add_cell (cell_at st.cells p) (sketch m st.entries p)

abbrev KeepsTotal : ℕ → PeelState → Peeled PeelState → Type 0
KeepsTotal m st (ok next) = (p : Place) → total m next p ≡ total m st p
KeepsTotal m st stuck = Unit {0}
KeepsTotal m st panic = Unit {0}

moved :
    (t : Bool) (e : Entry) (c s : Cell)
    → add_cell (when t (take_out e) c) (put t e s) ≡ add_cell c s
moved true e c s =
    ap (add_cell (take_out e c)) (add_cell_comm s (unit_cell e))
    ∙ sym (add_cell_assoc (take_out e c) (unit_cell e) s)
    ∙ ap (λ (d : Cell). add_cell d s) (add-sub_cell c (unit_cell e))
moved false e c s = refl

peeled-KeepsTotal :
    (m : ℕ) (e : Entry) (st : PeelState)
    → KeepsTotal m st
        (ok (remove_all e (places m e.val) (record st { entries = st.entries ++ e ∷ [] })))
peeled-KeepsTotal m e st p =
    let started = record st { entries = st.entries ++ e ∷ [] } in
    ap
      (λ (es : List Entry).
        add_cell (cell_at (remove_all e (places m e.val) started).cells p) (sketch m es p))
      (entries-remove_all e (places m e.val) started)
    ∙ rw (cell_at-remove_all m e started p, sketch-append m st.entries e p)
        (moved (owns m e p) e (cell_at st.cells p) (sketch m st.entries p))

peel_at-KeepsTotal :
    (m b : ℕ) (c : Cell) (st : PeelState) (own : Option ℕ) → KeepsTotal m st (peel_at m b c st own)
peel_at-KeepsTotal m b c st none = tt
peel_at-KeepsTotal m b c st (some own) = by_test (own == b)
  where
    by_test :
        (t : Bool)
        → KeepsTotal m st (
            if t
            then (let e = entry_of c in
                ok (remove_all e (places m e.val) (record st { entries = st.entries ++ e ∷ [] })))
            else stuck)
    by_test true = peeled-KeepsTotal m (entry_of c) st
    by_test false = tt

peel_cell-KeepsTotal :
    (m : ℕ) (p : Place) (st : PeelState) (o : Option Cell) → KeepsTotal m st (peel_cell m p st o)
peel_cell-KeepsTotal m p st none = λ q. refl
peel_cell-KeepsTotal m (g, b) st (some c) = by_test (is_pure c)
  where
    by_test :
        (t : Bool)
        → KeepsTotal m st (if t then peel_at m b c st (bucket_in m c.val_xor g) else ok st)
    by_test true = peel_at-KeepsTotal m b c st (bucket_in m c.val_xor g)
    by_test false = λ q. refl

peel_one-KeepsTotal : (m : ℕ) (p : Place) (st : PeelState) → KeepsTotal m st (peel_one m p st)
unfolding peel_one
peel_one-KeepsTotal m p st = peel_cell-KeepsTotal m p st (get st.cells p)

continue-KeepsTotal :
    (m : ℕ) (st : PeelState) (r : Peeled PeelState) (f : PeelState → Peeled PeelState)
    → KeepsTotal m st r
    → ((next : PeelState) → KeepsTotal m next (f next))
    → KeepsTotal m st (continue r f)
continue-KeepsTotal m st (ok next) f h k = trans (f next) (k next)
  where
    trans : (r : Peeled PeelState) → KeepsTotal m next r → KeepsTotal m st r
    trans (ok last) e = λ p. e p ∙ h p
    trans stuck e = tt
    trans panic e = tt
continue-KeepsTotal m st stuck f h k = tt
continue-KeepsTotal m st panic f h k = tt

peel_loop-KeepsTotal :
    (m budget : ℕ) (q : List Place) (st : PeelState) → KeepsTotal m st (peel_loop m budget q st)
unfolding peel_loop
peel_loop-KeepsTotal m zero [] st = λ p. refl
peel_loop-KeepsTotal m (suc budget) [] st = λ p. refl
peel_loop-KeepsTotal m zero (p ∷ q) st = tt
peel_loop-KeepsTotal m (suc budget) (p ∷ q) st =
    continue-KeepsTotal m st (peel_one m p (record st { queue = q }))
      (λ next. peel_loop m budget next.queue next)
      (peel_one-KeepsTotal m p (record st { queue = q }))
      (λ next. peel_loop-KeepsTotal m budget next.queue next)

is_empty-eq : (c : Cell) → is_empty c ≡ true → c ≡ empty_cell
is_empty-eq c h =
    cell_path (ground arith) (ground arith)
      (slices_path (ground arith) (ground arith) (ground arith) (ground arith))

cell_at-all_empty : (s : Summary) (p : Place) → all_empty s ≡ true → cell_at s p ≡ empty_cell
unfolding all_empty
cell_at-all_empty [] p h = cell_at-nil p
cell_at-all_empty ((q, c) ∷ s) p h = rw (cell_at-cons q p c s) (elim (Bool-cases (place_eq q p)) [
  | inl e ↦ rw e (is_empty-eq c (ground arith))
  | inr e ↦ rw e (cell_at-all_empty s p (ground arith))
])

finish-ok :
    (r : Peeled PeelState) {es : List Entry}
    → finish r ≡ ok es
    → (st : PeelState) × (r ≡ ok st) × (all_empty st.cells ≡ true) × (st.entries ≡ es)
finish-ok (ok st) e = elim (Bool-cases (all_empty st.cells)) [
  | inl empty ↦ (st, refl, empty, ground arith)
  | inr left_over ↦ absurd (ground arith)
]
finish-ok stuck e = cc
finish-ok panic e = cc

kept :
    (m : ℕ) (st last : PeelState) (r : Peeled PeelState)
    → KeepsTotal m st r
    → r ≡ ok last
    → (p : Place) → total m last p ≡ total m st p
kept m st last r h e = subst (KeepsTotal m st) e h

-- If `peel` returns, every cell of the summary is what the specification puts into it for the
-- entries that were returned: none is lost, none is invented.
pub peel-sketch :
    (diff : Summary) (m : ℕ) (es : List Entry) (p : Place)
    → peel diff m ≡ ok es
    → cell_at diff p ≡ sketch m es p
unfolding peel
peel-sketch diff m es p e =
    let start : PeelState = record { cells = diff; queue = []; entries = [] } in
    let ran = peel_loop m (total_abs diff / 2 * 3 + 1) (pure_places diff) start in
    let (last, ran_to, empty, returned) = finish-ok ran e in
    sym (add_cell_comm (cell_at diff p) empty_cell ∙ empty-add_cell (cell_at diff p))
    ∙ sym (kept m start last ran (peel_loop-KeepsTotal m _ (pure_places diff) start) ran_to p)
    ∙ ap (λ (c : Cell). add_cell c (sketch m last.entries p)) (cell_at-all_empty last.cells p empty)
    ∙ empty-add_cell (sketch m last.entries p)
    ∙ ap (λ (l : List Entry). sketch m l p) returned
