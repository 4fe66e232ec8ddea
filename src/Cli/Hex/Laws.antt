-- ===== src/Cli/Hex/Laws.antt =====
-- What the parsers of hexadecimal arguments accept.
use upc.Common.{
  ℕ, zero, suc, ◌+◌, ◌*◌, ◌/◌, ◌%◌, ◌^◌, ◌≤◌, ◌<◌, ◌≡◌, ◌≢◌, refl, ap, ◌∙◌, List, [], ◌∷◌, map, ltb,
  if◌then◌else◌, none, some, arith, inl, inr, Bool-cases, lt→ltb, ltb→lt, ltb→le, le→ltb, ==_of_ne,
  ◌==◌,
}
use upc.Common.Lists.{All}
use upc.Cli.Hex.{
  to_digit, from_digit, add_digit, from_digits, from_str_radix, trim_start_matches, trim_prefixes,
  parse_hex_u16, parse_hex_u8, format_u16, format_u8,
}

to_digit-from_digit : (d : ℕ) → d < 16 → to_digit (from_digit d) ≡ some d
to_digit-from_digit d small = ground arith

from_digit-IsCode : (d : ℕ) → d < 16 → (b'0' ≤ from_digit d) × (from_digit d ≤ b'f')
from_digit-IsCode d small = ground arith

abbrev pub IsDigit : ℕ → Type 0
IsDigit d = d < 16

-- The value of digits, behind those of `acc`.
abbrev pub value : ℕ → List ℕ → ℕ
value acc [] = acc
value acc (d ∷ ds) = value (acc * 16 + d) ds

value-≥ : (acc : ℕ) (ds : List ℕ) → acc ≤ value acc ds
value-≥ acc [] = omega arith
value-≥ acc (d ∷ ds) = omega (arith, value-≥ (acc * 16 + d) ds)

from_digits-value :
    (bound acc : ℕ) (ds : List ℕ)
    → All IsDigit ds
    → acc < bound
    → from_digits bound acc (map from_digit ds)
      ≡ (if ltb (value acc ds) bound then some (value acc ds) else none)
unfolding from_digits
from_digits-value bound acc [] digits small = rw (lt→ltb acc bound small) refl
from_digits-value bound acc (d ∷ ds) (digit, digits) small =
    ap (λ o. add_digit bound acc o (λ m. from_digits bound m (map from_digit ds)))
      (to_digit-from_digit d digit)
    ∙ elim (Bool-cases (ltb (acc * 16 + d) bound)) [
      | inl fits ↦ rw fits (from_digits-value bound (acc * 16 + d) ds digits (ltb→lt _ bound fits))
      | inr over ↦
          rw
            (
              over,
              le→ltb (value (acc * 16 + d) ds) bound
                  (omega (arith, ltb→le _ bound over, value-≥ (acc * 16 + d) ds)),
            )
            refl
    ]

-- A character that is no digit as the formats write them.
abbrev IsOther : ℕ → Type 0
IsOther c = (d : ℕ) → d < 16 → from_digit d ≢ c

trim-digits :
    (a b : ℕ) (ds : List ℕ)
    → IsOther b
    → All IsDigit ds
    → trim_start_matches a b (map from_digit ds) ≡ map from_digit ds
unfolding trim_start_matches
trim-digits a b [] big digits = refl
trim-digits a b (d ∷ []) big digits = refl
trim-digits a b (d ∷ e ∷ ds) big (_, (digit, _)) =
    rw (==_of_ne (from_digit e) b (big e digit)) (elim (Bool-cases (from_digit d == a)) [
      | inl same ↦ rw same refl
      | inr other ↦ rw other refl
    ])

from_str_radix-value :
    (bound d : ℕ) (ds : List ℕ)
    → 0 < bound
    → All IsDigit (d ∷ ds)
    → from_str_radix bound (map from_digit (d ∷ ds))
      ≡ (if ltb (value 0 (d ∷ ds)) bound then some (value 0 (d ∷ ds)) else none)
unfolding from_str_radix
from_str_radix-value bound d [] pos digits = from_digits-value bound 0 (d ∷ []) digits pos
from_str_radix-value bound d (e ∷ ds) pos (digit, digits) =
    rw (==_of_ne (from_digit d) b'+' (λ same. omega (arith, (from_digit-IsCode d digit).0)))
      (from_digits-value bound 0 (d ∷ e ∷ ds) (digit, digits) pos)

-- The text with so many prefixes 0x in front.
abbrev pub prefixed : ℕ → List ℕ → List ℕ
prefixed zero s = s
prefixed (suc k) s = b'0' ∷ b'x' ∷ prefixed k s

trim_start_matches-prefixed :
    (k : ℕ) (ds : List ℕ)
    → All IsDigit ds
    → trim_start_matches b'0' b'x' (prefixed k (map from_digit ds)) ≡ map from_digit ds
unfolding trim_start_matches
trim_start_matches-prefixed zero ds digits =
    trim-digits b'0' b'x' ds (λ d small. ground arith) digits
trim_start_matches-prefixed (suc k) ds digits = trim_start_matches-prefixed k ds digits

trim-prefixed :
    (k : ℕ) (ds : List ℕ)
    → All IsDigit ds
    → trim_prefixes (prefixed k (map from_digit ds)) ≡ map from_digit ds
unfolding trim_prefixes
trim-prefixed k ds digits =
    ap (trim_start_matches b'0' b'X') (trim_start_matches-prefixed k ds digits)
    ∙ trim-digits b'0' b'X' ds (λ d small. ground arith) digits

fitting : (bound v n : ℕ) → v ≡ n → n < bound → (if ltb v bound then some v else none) ≡ some n
fitting bound v n e fits = rw (e, lt→ltb n bound fits) refl

value_u16 : (n : ℕ) → n < 2 ^ 16 → value 0 (n / 4096 ∷ n / 256 % 16 ∷ n / 16 % 16 ∷ n % 16 ∷ []) ≡ n
value_u16 n fits = omega arith

parse_value :
    (bound k d : ℕ) (ds : List ℕ)
    → 0 < bound
    → All IsDigit (d ∷ ds)
    → from_str_radix bound (trim_prefixes (prefixed k (map from_digit (d ∷ ds))))
      ≡ (if ltb (value 0 (d ∷ ds)) bound then some (value 0 (d ∷ ds)) else none)
parse_value bound k d ds pos digits =
    ap (from_str_radix bound) (trim-prefixed k (d ∷ ds) digits)
    ∙ from_str_radix-value bound d ds pos digits

-- Hexadecimal digits behind any number of prefixes 0x, one digit at least, are read as the number that
-- they spell if it fits, and refused if it does not.
pub parse_hex_u16-value :
    (k d : ℕ) (ds : List ℕ)
    → All IsDigit (d ∷ ds)
    → parse_hex_u16 (prefixed k (map from_digit (d ∷ ds)))
      ≡ (if ltb (value 0 (d ∷ ds)) (2 ^ 16) then some (value 0 (d ∷ ds)) else none)
unfolding parse_hex_u16
parse_hex_u16-value k d ds digits = parse_value (2 ^ 16) k d ds (omega arith) digits

-- The identifiers as the tool prints them are read back as the numbers they stand for.
pub parse_hex-format :
    (id class : ℕ)
    → id < 2 ^ 16
    → class < 2 ^ 8
    → (parse_hex_u16 (format_u16 id) ≡ some id) × (parse_hex_u8 (format_u8 class) ≡ some class)
unfolding parse_hex_u16 parse_hex_u8 format_u16 format_u8
parse_hex-format id class fits small = (
  parse_value (2 ^ 16) 0 (id / 4096) (id / 256 % 16 ∷ id / 16 % 16 ∷ id % 16 ∷ []) (omega arith)
        (omega arith, (omega arith, (omega arith, (omega arith, tt))))
      ∙ fitting (2 ^ 16) _ id (value_u16 id fits) fits,
  parse_value (2 ^ 8) 0 (class / 16) (class % 16 ∷ []) (omega arith)
        (omega arith, (omega arith, tt))
      ∙ fitting (2 ^ 8) _ class (omega arith) small,
)
