-- ===== src/Js/Number.antt =====
-- `Number(text)` and `toString()` of a number, as far as the numbers are integers. A text that
-- denotes a fraction, an exponent, an infinity or an integer from 2 ^ 52 on is `other`: floating
-- point arithmetic is not modelled.
pub mod RoundTrip
use makoon.Prelude.{
  ℕ, zero, suc, ◌+◌, ◌-◌, ◌*◌, ◌/◌, ◌%◌, Bool, true, false, ◌&&◌, ◌||◌, List, [], ◌∷◌, ◌++◌, foldl,
  ltb, leb, Text, ◌==◌, nat_eq, text_eq, if◌then◌else◌,
}
use makoon.Prelude.Int.{ℤ, pos, negsuc}
use makoon.Js.Text.{all_units, trim}

-- What a text is to `Number`.
pub data Numeral : Type 0 where
  integer : ℤ → Numeral
  not_a_number : Numeral
  other : Numeral

abbrev pub is_digit : ℕ → Bool
is_digit c = leb b'0' c && leb c b'9'

abbrev pub digit_value : ℕ → ℕ
digit_value c = c - 48

abbrev is_digits : Text → Bool
is_digits [] = false
is_digits (c ∷ s) = all_units is_digit (c ∷ s)

-- The value of digits in a base.
pub value_from : ℕ → (ℕ → ℕ) → ℕ → Text → ℕ
value_from base digit acc [] = acc
value_from base digit acc (c ∷ s) = value_from base digit (acc * base + digit c) s

abbrev pub safe_limit : ℕ
safe_limit = 4_503_599_627_370_496

abbrev safe : ℕ → (ℕ → ℤ) → Numeral
safe n sign = if ltb n safe_limit then integer (sign n) else other

-- An exponent: nothing, or `e` with an optional sign and digits.
abbrev is_exponent : Text → Bool
is_exponent [] = true
is_exponent (e ∷ []) = false
is_exponent (e ∷ sign ∷ s) =
    (e == b'e' || e == b'E')
    && (if sign == b'+' || sign == b'-' then is_digits s else is_digits (sign ∷ s))

-- The rest of a decimal literal behind its integer digits; `some_digit` says whether there were any.
after_point : Bool → Text → Bool
after_point some_digit [] = some_digit
after_point some_digit (c ∷ s) =
    if is_digit c then after_point true s else some_digit && is_exponent (c ∷ s)

is_decimal : Bool → Text → Bool
unfolding after_point
is_decimal some_digit [] = some_digit
is_decimal some_digit (c ∷ s) =
    if is_digit c
    then is_decimal true s
    else if c == b'.'
    then after_point some_digit s
    else some_digit && is_exponent (c ∷ s)

abbrev is_infinity : Text → Bool
is_infinity s = s == b'I' ∷ b'n' ∷ b'f' ∷ b'i' ∷ b'n' ∷ b'i' ∷ b't' ∷ b'y' ∷ []

unsigned : (ℕ → ℤ) → Text → Numeral
unfolding value_from is_decimal
unsigned sign s =
    if is_digits s
    then safe (value_from 10 digit_value 0 s) sign
    else if is_decimal false s || is_infinity s
    then other
    else not_a_number

abbrev negate : ℕ → ℤ
negate zero = pos 0
negate (suc n) = negsuc n

abbrev is_hex : ℕ → Bool
is_hex c = is_digit c || (leb b'a' c && leb c b'f') || (leb b'A' c && leb c b'F')

abbrev hex_value : ℕ → ℕ
hex_value c = if is_digit c then c - 48 else if leb b'a' c then c - 87 else c - 55

abbrev is_octal : ℕ → Bool
is_octal c = leb b'0' c && leb c b'7'

abbrev is_binary : ℕ → Bool
is_binary c = c == b'0' || c == b'1'

prefixed : ℕ → (ℕ → Bool) → (ℕ → ℕ) → Text → Numeral
unfolding value_from
prefixed base test digit [] = not_a_number
prefixed base test digit (c ∷ s) =
    if all_units test (c ∷ s) then safe (value_from base digit 0 (c ∷ s)) pos else not_a_number

with_prefix : ℕ → ℕ → Text → Numeral
unfolding unsigned prefixed
with_prefix z x s =
    if z == b'0' && (x == b'x' || x == b'X')
    then prefixed 16 is_hex hex_value s
    else if z == b'0' && (x == b'o' || x == b'O')
    then prefixed 8 is_octal digit_value s
    else if z == b'0' && (x == b'b' || x == b'B')
    then prefixed 2 is_binary digit_value s
    else if z == b'-'
    then unsigned negate (x ∷ s)
    else if z == b'+'
    then unsigned pos (x ∷ s)
    else unsigned pos (z ∷ x ∷ s)

trimmed_number : Text → Numeral
unfolding with_prefix unsigned
trimmed_number [] = integer (pos 0)
trimmed_number (c ∷ []) = unsigned pos (c ∷ [])
trimmed_number (z ∷ x ∷ s) = with_prefix z x s

-- `Number(s)`.
unfoldable pub number : Text → Numeral
unfolding trimmed_number trim
number s = trimmed_number (trim s)

-- Decimal digits; `n` rounds and one are enough for `n`.
pub digits_from : ℕ → ℕ → Text
digits_from zero n = []
digits_from (suc fuel) n =
    let rest = digits_from fuel (n / 10) in
    if ltb n 10 then (48 + n) ∷ [] else rest ++ (48 + n % 10) ∷ []

unfoldable pub digits : ℕ → Text
unfolding digits_from
digits n = digits_from (suc n) n

-- `n.toString()` of an integer.
unfoldable pub to_text : ℤ → Text
unfolding digits
to_text (pos n) = digits n
to_text (negsuc n) = b'-' ∷ digits (suc n)
