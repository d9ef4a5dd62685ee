-- ===== src/Naive/Balance.antt =====
-- The rows that a merge leaves unpaired, counted by their keys.
use mathlib.Core.Path.{subst}
use hepta_dbcli.Prelude.{
  ℕ, suc, ◌+◌, ◌-◌, Bool, true, false, List, [], ◌∷◌, ◌++◌, map, Option, none, some, set, length,
  length-map, replicate, ◌≡◌, refl, sym, ap, ◌∙◌, arith, Bool-cases, inl, inr,
}
use hepta_dbcli.Prelude.Assoc.{find, IsEquivTest}
use hepta_dbcli.Prelude.Sort.{count_if}
use hepta_dbcli.Naive.{
  pop_last, index_rows, popped, pop_at, Merged, taken, merge_right, unconsumed, merge,
}
use hepta_dbcli.Naive.Pairing.{open_indices, Leaves, pop_last-Leaves}
use hepta_dbcli.Naive.Counts.{
  popped_size, length-pop_last, Synced, popped-Synced, index_rows-open, open_indices-alike,
}

map_id : (ns : List ℕ) → map (λ n. 0 + n) ns ≡ ns
map_id [] = refl
map_id (n ∷ ns) = λ i. zero_plus i ∷ map_id ns i
  where
    zero_plus : 0 + n ≡ n
    zero_plus = omega arith

module _ {ℓ} {A : Type ℓ} where
  pub count_if-append :
      (p : A → Bool) (xs ys : List A) → count_if p (xs ++ ys) ≡ count_if p xs + count_if p ys
  count_if-append p [] ys = omega arith
  count_if-append p (x ∷ xs) ys = elim (Bool-cases (p x)) [
    | inl e ↦ rw e (omega (arith, count_if-append p xs ys))
    | inr e ↦ rw e (count_if-append p xs ys)
  ]

module _ {K R O : Type 0} (eq : K → K → Bool) (laws : IsEquivTest eq) (key : R → K)
    (on_pair : ℕ → R → List O) (on_none : R → O) (f : K) where
  abbrev pub rows_of : List R → ℕ
  rows_of rs = count_if (λ r. eq (key r) f) rs

  abbrev open_count : List Bool → List K → ℕ
  open_count cs js = length (open_indices eq f cs js)

  -- What the loop over the right rows does for the key `f`: `p` tells its unpaired rows.
  abbrev pub Settles :
      (O → Bool) → List K → List R → List Bool → Merged eq key on_pair on_none → Type 0
  Settles p js rs cs (out, m, cs') =
      (count_if p out ≡ rows_of rs - open_count cs js)
      × (open_count cs' js ≡ open_count cs js - rows_of rs)

  module _ (p : O → Bool) (unpaired : (r : R) → p (on_none r) ≡ eq (key r) f)
      (paired : (i : ℕ) (r : R) → count_if p (on_pair i r) ≡ 0) where
    counted : (i : ℕ) (r : R) (rows : List O) → count_if p (on_pair i r ++ rows) ≡ count_if p rows
    counted i r rows =
        count_if-append p (on_pair i r) rows
        ∙ ap (λ (n : ℕ). n + count_if p rows) (paired i r)
        ∙ omega arith

    taken-Settles :
        (js : List K) (r : R) (rs : List R) (cs : List Bool) (m : List (K × List ℕ))
        (o : Option (List ℕ × ℕ))
        → Synced eq laws m cs js
        → Leaves eq laws (key r) cs js o
        → length (open_indices eq (key r) cs js) ≡ popped_size o
        → ((m : List (K × List ℕ)) (cs : List Bool)
            → Synced eq laws m cs js
            → Settles p js rs cs (merge_right eq key on_pair on_none rs m cs))
        → Settles p js (r ∷ rs) cs (
            taken eq key on_pair on_none r cs
              (merge_right eq key on_pair on_none rs)
              (popped eq (key r) m o))
    unfolding popped
    taken-Settles js r rs cs m none s l size h =
        let (a, b) = h m cs s in
        elim (Bool-cases (eq (key r) f)) [
          | inl e ↦
              let empty = sym (ap length (open_indices-alike eq laws (key r) f cs js e)) ∙ size in
              (rw (unpaired r, e) (omega (arith, a, empty)), rw e (omega (arith, b, empty)))
          | inr e ↦ (rw (unpaired r, e) a, rw e b)
        ]
    taken-Settles js r rs cs m (some (rest, i)) s (own, others) size h =
        let (a, b) = h _ _ (popped-Synced eq laws (key r) m cs js rest i s (own, others)) in
        elim (Bool-cases (eq (key r) f)) [
          | inl e ↦
              let before = sym (ap length (open_indices-alike eq laws (key r) f cs js e)) ∙ size in
              let after =
                ap length (sym (open_indices-alike eq laws (key r) f (set cs i true) js e) ∙ own) in
              (
                counted i r _ ∙ rw e (omega (arith, a, before, after)),
                rw e (omega (arith, b, before, after)),
              )
          | inr e ↦
              let same = ap length (others f e) in
              (counted i r _ ∙ rw e (omega (arith, a, same)), rw e (omega (arith, b, same)))
        ]

    pub merge_right-Settles :
        (js : List K) (rs : List R) (m : List (K × List ℕ)) (cs : List Bool)
        → Synced eq laws m cs js
        → Settles p js rs cs (merge_right eq key on_pair on_none rs m cs)
    unfolding merge_right
    merge_right-Settles js [] m cs s = (omega arith, omega arith)
    merge_right-Settles js (r ∷ rs) m cs s =
        subst
          (λ (is : List ℕ). Settles p js (r ∷ rs) cs (
            taken eq key on_pair on_none r cs (merge_right eq key on_pair on_none rs)
              (popped eq (key r) m (pop_last is))))
          (sym (s (key r)))
          (taken-Settles js r rs cs m _ s (pop_last-Leaves eq laws (key r) cs js)
            (length-pop_last (open_indices eq (key r) cs js))
            (λ m cs s. merge_right-Settles js rs m cs s))

  -- `q` tells the unpaired rows of the left side.
  unconsumed-count :
      (q : O → Bool) (make : R → O)
      → ((l : R) → q (make l) ≡ eq (key l) f)
      → (ls : List R) (cs : List Bool)
      → count_if q (unconsumed eq key on_pair on_none make ls cs) ≡ open_count cs (map key ls)
  unfolding unconsumed
  unconsumed-count q make h [] cs = refl
  unconsumed-count q make h (l ∷ ls) [] = refl
  unconsumed-count q make h (l ∷ ls) (true ∷ cs) =
      unconsumed-count q make h ls cs ∙ sym (length-map (open_indices eq f cs (map key ls)) suc)
  unconsumed-count q make h (l ∷ ls) (false ∷ cs) =
      let later =
        unconsumed-count q make h ls cs
        ∙ sym (length-map (open_indices eq f cs (map key ls)) suc) in
      rw (h l)
        (elim (Bool-cases (eq (key l) f)) [ inl e ↦ rw e (ap suc later) | inr e ↦ rw e later ])

  open_count-start :
      (ls : List R) → open_count (replicate (length ls) false) (map key ls) ≡ rows_of ls
  open_count-start [] = refl
  open_count-start (l ∷ ls) =
      let later =
        length-map (open_indices eq f (replicate (length ls) false) (map key ls)) suc
        ∙ open_count-start ls in
      elim (Bool-cases (eq (key l) f)) [ inl e ↦ rw e (ap suc later) | inr e ↦ rw e later ]

  unconsumed-count_none :
      (p : O → Bool) (make : R → O)
      → ((l : R) → p (make l) ≡ false)
      → (ls : List R) (cs : List Bool)
      → count_if p (unconsumed eq key on_pair on_none make ls cs) ≡ 0
  unfolding unconsumed
  unconsumed-count_none p make h [] cs = refl
  unconsumed-count_none p make h (l ∷ ls) [] = refl
  unconsumed-count_none p make h (l ∷ ls) (true ∷ cs) = unconsumed-count_none p make h ls cs
  unconsumed-count_none p make h (l ∷ ls) (false ∷ cs) =
      rw (h l) (unconsumed-count_none p make h ls cs)

  module _ (q : O → Bool) (unpaired : (r : R) → q (on_none r) ≡ false)
      (paired : (i : ℕ) (r : R) → count_if q (on_pair i r) ≡ 0) where
    taken-count_none :
        (r : R) (cs : List Bool)
        (rest : List (K × List ℕ) → List Bool → Merged eq key on_pair on_none)
        → ((m : List (K × List ℕ)) (cs : List Bool) → count_if q (rest m cs).0 ≡ 0)
        → (o : List (K × List ℕ) × Option ℕ)
        → count_if q (taken eq key on_pair on_none r cs rest o).0 ≡ 0
    taken-count_none r cs rest h (m, none) = rw (unpaired r) (h m cs)
    taken-count_none r cs rest h (m, some i) =
        count_if-append q (on_pair i r) _ ∙ (λ j. paired i r j + h m (set cs i true) j)

    merge_right-count_none :
        (rs : List R) (m : List (K × List ℕ)) (cs : List Bool)
        → count_if q (merge_right eq key on_pair on_none rs m cs).0 ≡ 0
    unfolding merge_right
    merge_right-count_none [] m cs = refl
    merge_right-count_none (r ∷ rs) m cs =
        taken-count_none r cs (merge_right eq key on_pair on_none rs) (merge_right-count_none rs)
          (pop_at eq (key r) m)

  start-Synced :
      (ls : List R)
      → Synced eq laws (index_rows eq 0 (map key ls) []) (replicate (length ls) false) (map key ls)
  unfolding find
  start-Synced ls k =
      index_rows-open eq laws 0 (map key ls) [] k
      ∙ map_id (open_indices eq k (replicate (length (map key ls)) false) (map key ls))
      ∙ ap (λ (n : ℕ). open_indices eq k (replicate n false) (map key ls)) (length-map ls key)

  pub merge-unpaired :
      (p q : O → Bool) (make : R → O)
      → ((r : R) → p (on_none r) ≡ eq (key r) f)
      → ((i : ℕ) (r : R) → count_if p (on_pair i r) ≡ 0)
      → ((l : R) → p (make l) ≡ false)
      → ((r : R) → q (on_none r) ≡ false)
      → ((i : ℕ) (r : R) → count_if q (on_pair i r) ≡ 0)
      → ((l : R) → q (make l) ≡ eq (key l) f)
      → (ls rs : List R)
      → (count_if p (merge eq key on_pair on_none make ls rs) ≡ rows_of rs - rows_of ls)
        × (count_if q (merge eq key on_pair on_none make ls rs) ≡ rows_of ls - rows_of rs)
  unfolding merge
  merge-unpaired p q make h1 h2 h3 h4 h5 h6 ls rs =
      let m = index_rows eq 0 (map key ls) [] in
      let cs = replicate (length ls) false in
      let (new, left_over) = merge_right-Settles p h1 h2 (map key ls) rs m cs (start-Synced ls) in
      let (out, ended, consumed) = merge_right eq key on_pair on_none rs m cs in
      let begun = open_count-start ls in
      (
        count_if-append p out _
            ∙ omega (arith, new, begun, unconsumed-count_none p make h3 ls consumed),
        count_if-append q out _
            ∙ omega (
              arith,
              left_over,
              begun,
              merge_right-count_none q h4 h5 rs m cs,
              unconsumed-count q make h6 ls consumed,
            ),
      )
