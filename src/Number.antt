-- ===== src/Number.antt =====
-- Numbers read from texts, and comparisons as `std::cmp::Ordering`. (The language's own `parse` and
-- `cmp`, as dbcli/src uses them.)
use hepta_dbcli.Prelude.{
  ℕ, zero, suc, ◌+◌, ◌-◌, ◌*◌, ◌^◌, ltb, leb, ◌==◌, Bool, ◌&&◌, [], ◌∷◌, Option, none, some,
  if◌then◌else◌,
}
use hepta_dbcli.Prelude.Int.{ℤ, pos, negsuc}
use hepta_dbcli.Decimals.{Order, less, same_place, greater}
use hepta_dbcli.Text.{Text, within}

abbrev is_digit : ℕ → Bool
is_digit c = within 48 57 c

-- The digits behind the sign, onto `n`: every step checks that the number stays within `bound`.
unfoldable parse_digits : ℕ → ℕ → Text → Option ℕ
parse_digits bound n [] = some n
parse_digits bound n (c ∷ s) =
    let next = n * 10 + (c - 48) in
    let rest = parse_digits bound next s in if is_digit c && leb next bound then rest else none

-- At least one digit.
abbrev parse_number : ℕ → Text → Option ℕ
unfolding parse_digits
parse_number bound [] = none
parse_number bound (c ∷ s) = parse_digits bound 0 (c ∷ s)

-- `str::parse::<u64>`
unfoldable pub parse_u64 : Text → Option ℕ
unfolding parse_number
parse_u64 [] = none
parse_u64 (c ∷ s) =
    if c == 43 then parse_number (2 ^ 64 - 1) s else parse_number (2 ^ 64 - 1) (c ∷ s)

-- `str::parse::<u16>`
unfoldable pub parse_u16 : Text → Option ℕ
unfolding parse_number
parse_u16 [] = none
parse_u16 (c ∷ s) =
    if c == 43 then parse_number (2 ^ 16 - 1) s else parse_number (2 ^ 16 - 1) (c ∷ s)

abbrev negate : Option ℕ → Option ℤ
negate none = none
negate (some zero) = some (pos 0)
negate (some (suc n)) = some (negsuc n)

abbrev positive : Option ℕ → Option ℤ
positive none = none
positive (some n) = some (pos n)

-- `str::parse::<i64>`
unfoldable pub parse_i64 : Text → Option ℤ
unfolding parse_number
parse_i64 [] = none
parse_i64 (c ∷ s) =
    if c == 43
    then positive (parse_number (2 ^ 63 - 1) s)
    else if c == 45
    then negate (parse_number (2 ^ 63) s)
    else positive (parse_number (2 ^ 63 - 1) (c ∷ s))

abbrev pub order_of : ℕ → ℕ → Order
order_of a b = if a == b then same_place else if ltb a b then less else greater

abbrev pub order_of_ints : ℤ → ℤ → Order
order_of_ints (pos a) (pos b) = order_of a b
order_of_ints (pos a) (negsuc b) = greater
order_of_ints (negsuc a) (pos b) = less
order_of_ints (negsuc a) (negsuc b) = order_of b a

-- `str::cmp`, by the code points, whose order is that of the bytes of UTF-8
unfoldable pub order_of_texts : Text → Text → Order
order_of_texts [] [] = same_place
order_of_texts [] (b ∷ t) = less
order_of_texts (a ∷ s) [] = greater
order_of_texts (a ∷ s) (b ∷ t) =
    let rest = order_of_texts s t in if a == b then rest else if ltb a b then less else greater
