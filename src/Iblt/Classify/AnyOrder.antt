-- ===== src/Iblt/Classify/AnyOrder.antt =====
-- The order of the keys in the keyless classification of dbcli/src/delta_diff/iblt_diff.rs.
use mathlib.Core.List.{Permᴰ}
use mathlib.Core.List.Permᴰ
use mathlib.Core.Path.{subst}
use hepta_dbcli.Prelude.{
  ℕ, ◌==◌, Bool, true, false, List, ◌∷◌, Option, none, some, ◌≡◌, refl, ap, ◌∙◌,
}
use hepta_dbcli.Prelude.Assoc.{find}
use hepta_dbcli.Report.{DiffStatus}
use hepta_dbcli.Iblt.Classify.{or_no_sides, Counted, bump, count_key, count_keys}

unfoldable pub Same : Counted → Counted → Type 0
Same (ml, mr, rows) (nl, nr, others) = (ml ≡ nl) × (mr ≡ nr) × Permᴰ rows others

Same-refl : (c : Counted) → Same c c
unfolding Same
Same-refl (ml, mr, rows) = (refl, refl, Permᴰ.refl rows)

Same-trans : (b c d : Counted) → Same b c → Same c d → Same b d
unfolding Same
Same-trans b c d (x, y, z) (x', y', z') = (x ∙ x', y ∙ y', Permᴰ.trans z z')

count_key-Same :
    (k : ℕ) (s : Bool × Bool) (o : Option DiffStatus) (c d : Counted)
    → Same c d
    → Same (count_key k s o c) (count_key k s o d)
unfolding Same
count_key-Same k s none c d h = h
count_key-Same k (l, r) (some st) (ml, mr, rows) (nl, nr, others) (hl, hr, p) =
    (ap (bump r) hl, ap (bump l) hr, Permᴰ.cons refl p)

bump_comm : (s t : Bool) (n : ℕ) → bump s (bump t n) ≡ bump t (bump s n)
bump_comm true true n = refl
bump_comm true false n = refl
bump_comm false true n = refl
bump_comm false false n = refl

count_key-swap :
    (j k : ℕ) (s t : Bool × Bool) (o p : Option DiffStatus) (c : Counted)
    → Same (count_key j s o (count_key k t p c)) (count_key k t p (count_key j s o c))
unfolding Same
count_key-swap j k s t none p c = Same-refl (count_key k t p c)
count_key-swap j k s t (some o) none (ml, mr, rows) = (refl, refl, Permᴰ.refl _)
count_key-swap j k (l, r) (t, u) (some o) (some p) (ml, mr, rows) =
    (bump_comm r u ml, bump_comm l t mr, Permᴰ.swap refl refl)

-- The order of the keys decides only the order of the rows.
module _ (m : List (ℕ × (Bool × Bool))) where
  pub count_keys-Perm : {ks js : List ℕ} → Permᴰ ks js → Same (count_keys m ks) (count_keys m js)
  unfolding count_keys
  count_keys-Perm Permᴰ.nil = Same-refl _
  count_keys-Perm (Permᴰ.cons {a = k} {b = j} {l₁ = ks} {l₂ = js} e d) =
      subst (λ (i : ℕ). Same (count_keys m (k ∷ ks)) (count_keys m (i ∷ js))) e
        (count_key-Same k (or_no_sides (find ◌==◌ m k)) _ (count_keys m ks) (count_keys m js)
          (count_keys-Perm d))
  count_keys-Perm (Permᴰ.swap {a = a} {b = b} {a' = a'} {b' = b'} {l = l} e f) =
      subst (λ (i : ℕ). Same (count_keys m (a ∷ b ∷ l)) (count_keys m (a' ∷ i ∷ l))) e
        (subst (λ (i : ℕ). Same (count_keys m (a ∷ b ∷ l)) (count_keys m (i ∷ a ∷ l))) f
          (count_key-swap a b (or_no_sides (find ◌==◌ m a)) (or_no_sides (find ◌==◌ m b)) _ _
            (count_keys m l)))
  count_keys-Perm (Permᴰ.trans {l₁ = ks} {l₂ = js} {l₃ = is} d e) =
      Same-trans (count_keys m ks) (count_keys m js) (count_keys m is) (count_keys-Perm d)
        (count_keys-Perm e)
