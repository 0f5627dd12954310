-- ===== src/Std/Number.antt =====
-- Numbers as decimal text.
use tenodera.Prelude.{
  ℕ, zero, suc, ◌+◌, ◌-◌, ◌*◌, ◌/◌, ◌%◌, Bool, ◌&&◌, Option, none, some, [], ◌∷◌, ◌++◌, Text,
  nat_eq, ◌==◌, ltb, leb, all, is_empty, if◌then◌else◌,
}

abbrev pub is_digit : ℕ → Bool
is_digit c = leb b'0' c && leb c b'9'

abbrev pub digits_value : ℕ → Text → ℕ
digits_value n [] = n
digits_value n (c ∷ s) = digits_value (n * 10 + (c - b'0')) s

-- `s.parse()` at an unsigned type whose values lie below the bound.
abbrev pub parse_digits : ℕ → Text → Option ℕ
parse_digits bound s =
    let value = digits_value 0 s in
    if is_empty s then none else if all is_digit s && ltb value bound then some value else none

unfoldable pub parse_unsigned : ℕ → Text → Option ℕ
parse_unsigned bound [] = none
parse_unsigned bound (c ∷ s) =
    if c == b'+' then parse_digits bound s else parse_digits bound (c ∷ s)

-- The digits of a number, of which there are no more than its successor.
abbrev pub decimal_from : ℕ → ℕ → Text
decimal_from zero n = []
decimal_from (suc fuel) n =
    let front = decimal_from fuel (n / 10) in
    if ltb n 10 then (b'0' + n) ∷ [] else front ++ (b'0' + n % 10) ∷ []

-- `n.to_string()`
unfoldable pub decimal : ℕ → Text
decimal n = decimal_from (n + 1) n
