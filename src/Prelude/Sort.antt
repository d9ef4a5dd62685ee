-- ===== src/Prelude/Sort.antt =====
-- The stable sort of `sort_by`, and that it keeps every element.
use Prim.Native.Nat.{ℕ, suc}
use mathlib.Core.Path.{◌≡◌, refl, ◌∙◌}
use mathlib.Core.Bool.{Bool, true, false}
use mathlib.Core.List.{List, [], ◌∷◌, Permᴰ}
use mathlib.Core.List.Permᴰ
use hepta_dbcli.Prelude.Tests.{if◌then◌else◌}

module _ {ℓ} {A : Type ℓ} (le : A → A → Bool) where
  unfoldable pub insert_sorted : A → List A → List A
  insert_sorted a [] = a ∷ []
  insert_sorted a (b ∷ ys) =
      let rest = insert_sorted a ys in if le a b then a ∷ b ∷ ys else b ∷ rest

  unfoldable pub sort : List A → List A
  unfolding insert_sorted
  sort [] = []
  sort (a ∷ xs) = insert_sorted a (sort xs)

  insert_sorted-Perm : (a : A) (ys : List A) → Permᴰ (insert_sorted a ys) (a ∷ ys)
  unfolding insert_sorted
  insert_sorted-Perm a [] = Permᴰ.refl _
  insert_sorted-Perm a (b ∷ ys) = branch (le a b) (insert_sorted-Perm a ys)
    where
      branch :
          (t : Bool)
          → Permᴰ (insert_sorted a ys) (a ∷ ys)
          → Permᴰ (if t then a ∷ b ∷ ys else b ∷ insert_sorted a ys) (a ∷ b ∷ ys)
      branch true d = Permᴰ.refl _
      branch false d = Permᴰ.trans (Permᴰ.cons refl d) (Permᴰ.swap refl refl)

  pub sort-Perm : (xs : List A) → Permᴰ (sort xs) xs
  unfolding sort
  sort-Perm [] = Permᴰ.nil
  sort-Perm (a ∷ xs) = Permᴰ.trans (insert_sorted-Perm a (sort xs)) (Permᴰ.cons refl (sort-Perm xs))

-- Counting the elements that pass a test does not depend on the order.
module _ {ℓ} {A : Type ℓ} (p : A → Bool) where
  abbrev pub count_if : List A → ℕ
  count_if [] = 0
  count_if (a ∷ xs) = if p a then suc (count_if xs) else count_if xs

  count_if-cons :
      (a b : A) (xs ys : List A)
      → a ≡ b
      → count_if xs ≡ count_if ys
      → count_if (a ∷ xs) ≡ count_if (b ∷ ys)
  count_if-cons a b xs ys e h = λ i. if p (e i) then suc (h i) else h i

  count_if-swap :
      (s t : Bool) (n : ℕ)
      → (if s then suc (if t then suc n else n) else (if t then suc n else n))
        ≡ (if t then suc (if s then suc n else n) else (if s then suc n else n))
  count_if-swap true true n = refl
  count_if-swap true false n = refl
  count_if-swap false true n = refl
  count_if-swap false false n = refl

  pub count_if-Perm : {xs ys : List A} → Permᴰ xs ys → count_if xs ≡ count_if ys
  count_if-Perm Permᴰ.nil = refl
  count_if-Perm (Permᴰ.cons {a = a} {b = b} {l₁ = xs} {l₂ = ys} e d) =
      count_if-cons a b xs ys e (count_if-Perm d)
  count_if-Perm (Permᴰ.swap {a = a} {b = b} {a' = a'} {b' = b'} {l = l} e f) =
      count_if-swap (p a) (p b) (count_if l)
      ∙ count_if-cons b a' (a ∷ l) (b' ∷ l) f (count_if-cons a b' l l e refl)
  count_if-Perm (Permᴰ.trans d e) = count_if-Perm d ∙ count_if-Perm e
