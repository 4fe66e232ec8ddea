-- ===== src/Cli/Hex.antt =====
-- src/bin/upc.rs: `parse_hex_u16` and `parse_hex_u8`, and the number formats of the tool's output.
pub mod Laws
use upc.Common.{
  ℕ, ◌+◌, ◌-◌, ◌*◌, ◌/◌, ◌%◌, ◌^◌, List, [], ◌∷◌, Bool, ◌&&◌, ltb, leb, ◌==◌, if◌then◌else◌, Option,
  none, some,
}

-- `trim_start_matches` with a pattern of two characters.
unfoldable pub trim_start_matches : ℕ → ℕ → List ℕ → List ℕ
trim_start_matches a b [] = []
trim_start_matches a b (x ∷ []) = x ∷ []
trim_start_matches a b (x ∷ y ∷ rest) =
    if x == a && y == b then trim_start_matches a b rest else x ∷ y ∷ rest

-- `char::to_digit(16)`.
abbrev pub to_digit : ℕ → Option ℕ
to_digit c =
    if leb b'0' c && leb c b'9'
    then some (c - b'0')
    else if leb b'a' c && leb c b'f'
    then some (c - b'a' + 10)
    else if leb b'A' c && leb c b'F'
    then some (c - b'A' + 10)
    else none

abbrev pub add_digit : ℕ → ℕ → Option ℕ → (ℕ → Option ℕ) → Option ℕ
add_digit bound acc none rest = none
add_digit bound acc (some d) rest = if ltb (acc * 16 + d) bound then rest (acc * 16 + d) else none

-- The digits of a number below the bound `bound` of its type, with the value of those before them.
unfoldable pub from_digits : ℕ → ℕ → List ℕ → Option ℕ
from_digits bound acc [] = some acc
from_digits bound acc (c ∷ cs) = add_digit bound acc (to_digit c) (λ m. from_digits bound m cs)

-- `from_str_radix` with the radix 16: at least one digit, which a sign may precede.
unfoldable pub from_str_radix : ℕ → List ℕ → Option ℕ
unfolding from_digits
from_str_radix bound [] = none
from_str_radix bound (c ∷ []) = from_digits bound 0 (c ∷ [])
from_str_radix bound (c ∷ d ∷ cs) =
    if c == b'+' then from_digits bound 0 (d ∷ cs) else from_digits bound 0 (c ∷ d ∷ cs)

unfoldable pub trim_prefixes : List ℕ → List ℕ
unfolding trim_start_matches
trim_prefixes s = trim_start_matches b'0' b'X' (trim_start_matches b'0' b'x' s)

unfoldable pub parse_hex_u16 : List ℕ → Option ℕ
unfolding from_str_radix trim_prefixes
parse_hex_u16 s = from_str_radix (2 ^ 16) (trim_prefixes s)

unfoldable pub parse_hex_u8 : List ℕ → Option ℕ
unfolding from_str_radix trim_prefixes
parse_hex_u8 s = from_str_radix (2 ^ 8) (trim_prefixes s)

abbrev pub from_digit : ℕ → ℕ
from_digit d = if ltb d 10 then b'0' + d else b'a' + (d - 10)

-- The formats `{:04x}` of a u16 and `{:02x}` of a u8.
unfoldable pub format_u16 : ℕ → List ℕ
format_u16 n =
    from_digit (n / 4096)
    ∷ from_digit (n / 256 % 16)
    ∷ from_digit (n / 16 % 16)
    ∷ from_digit (n % 16)
    ∷ []

unfoldable pub format_u8 : ℕ → List ℕ
format_u8 n = from_digit (n / 16) ∷ from_digit (n % 16) ∷ []
