-- ===== src/Prelude/Booleans.antt =====
-- What an `or` says of its parts.
use Prim.Native.Nat.{ℕ}
use mathlib.Core.Path.{◌≡◌, refl}
use mathlib.Core.Logic.{◌⊎◌, inl, inr}
use mathlib.Core.Bool.{Bool, true, false, ◌||◌}
use hepta_dbcli.Prelude.Tests.{◌==◌, ==_iff}

pub or_false : (a b : Bool) → (a || b) ≡ false → (a ≡ false) × (b ≡ false)
or_false true b h = cc
or_false false b h = (refl, h)

pub one_of_two : (a b : Bool) → (a || b) ≡ true → (a ≡ true) ⊎ (b ≡ true)
one_of_two true b h = inl refl
one_of_two false b h = inr h

pub or_swapped : (a b c : Bool) → (a || (b || c)) ≡ (b || (a || c))
or_swapped true true c = refl
or_swapped true false c = refl
or_swapped false b c = refl

pub eq_self : (q : ℕ) → (q == q) ≡ true
eq_self q = (==_iff q q).1 refl
