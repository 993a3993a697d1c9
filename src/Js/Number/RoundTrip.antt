-- ===== src/Js/Number/RoundTrip.antt =====
-- `Number` reads back what `toString` prints.
use makoon.Prelude.{
  ℕ, zero, suc, ◌+◌, ◌*◌, ◌/◌, ◌%◌, ◌<◌, ◌≡◌, ◌≢◌, refl, ap, ◌∙◌, true, false, [], ◌∷◌, ◌++◌, arith,
  All, All-append, ltb, Text, nat_beq, Bool-cases, inl, inr,
}
use makoon.Prelude.Int.{pos}
use makoon.Js.Text.{all_units, is_space, trim_start, trim_end, trim}
use makoon.Js.Number.{
  integer, is_digit, digit_value, value_from, safe_limit, unsigned, with_prefix, trimmed_number,
  number, digits_from, digits,
}

abbrev IsDigit : ℕ → Type 0
IsDigit c = is_digit c ≡ true

digits_from-IsDigit : (fuel n : ℕ) → All IsDigit (digits_from fuel n)
unfolding digits_from
digits_from-IsDigit zero n = tt
digits_from-IsDigit (suc fuel) n = elim (Bool-cases (ltb n 10)) [
  | inl e ↦ rw (e, digits_from) (ground arith, tt)
  | inr e ↦
      rw (e, digits_from)
        (All-append IsDigit (digits_from fuel (n / 10)) ((48 + n % 10) ∷ [])
          (digits_from-IsDigit fuel (n / 10)) (ground arith, tt))
]

value_from-concat :
    (base : ℕ) (digit : ℕ → ℕ) (acc : ℕ) (s : Text) (c : ℕ)
    → value_from base digit acc (s ++ c ∷ []) ≡ value_from base digit acc s * base + digit c
unfolding value_from
value_from-concat base digit acc [] c = refl
value_from-concat base digit acc (x ∷ s) c = value_from-concat base digit (acc * base + digit x) s c

value_from-digits_from :
    (fuel n : ℕ) → n < fuel → value_from 10 digit_value 0 (digits_from fuel n) ≡ n
unfolding value_from digits_from
value_from-digits_from zero n h = elim h [ ]
value_from-digits_from (suc fuel) n h = elim (Bool-cases (ltb n 10)) [
  | inl e ↦ rw (e, digits_from) (omega arith)
  | inr e ↦
      rw (e, digits_from)
        (ground (
          arith,
          value_from-concat 10 digit_value 0 (digits_from fuel (n / 10)) (48 + n % 10),
          value_from-digits_from fuel (n / 10),
        ))
]

digits_from-ne_nil : (fuel n : ℕ) → digits_from (suc fuel) n ≢ []
unfolding digits_from
digits_from-ne_nil fuel n = elim (Bool-cases (ltb n 10)) [
  | inl e ↦ rw (e, digits_from) (λ p. cc)
  | inr e ↦ rw (e, digits_from) (append_ne (digits_from fuel (n / 10)) (48 + n % 10))
]
  where
    append_ne : (s : Text) (c : ℕ) → s ++ c ∷ [] ≢ []
    append_ne [] c p = cc
    append_ne (x ∷ s) c p = cc

all_units_lem : (s : Text) → All IsDigit s → all_units is_digit s ≡ true
all_units_lem [] _ = refl
all_units_lem (c ∷ s) (h, hs) = ground (arith, all_units_lem s hs)

digit_not_space : (c : ℕ) → IsDigit c → is_space c ≡ false
unfolding is_space
digit_not_space c h = ground arith

trim_end_digits : (s : Text) → All IsDigit s → trim_end s ≡ s
unfolding trim_end
trim_end_digits [] _ = refl
trim_end_digits (c ∷ s) (h, hs) = ground (arith, digit_not_space c h, trim_end_digits s hs)

trim_digits : (s : Text) → All IsDigit s → trim s ≡ s
unfolding trim trim_start
trim_digits [] _ = unfold trim_end in refl
trim_digits (c ∷ s) (h, hs) =
    rw (trim_end_digits (c ∷ s) (h, hs)) (ground (arith, digit_not_space c h))

-- No digit is one of the letters and signs that a numeral may begin with.
digit_ne : (c d : ℕ) → IsDigit c → is_digit d ≡ false → nat_beq c d ≡ false
digit_ne c d h k = ground arith

with_prefix_digits :
    (z x : ℕ) (s : Text) → IsDigit z → IsDigit x → with_prefix z x s ≡ unsigned pos (z ∷ x ∷ s)
unfolding with_prefix
with_prefix_digits z x s h k =
    simp
      (
        digit_ne x b'x' k refl,
        digit_ne x b'X' k refl,
        digit_ne x b'o' k refl,
        digit_ne x b'O' k refl,
        digit_ne x b'b' k refl,
        digit_ne x b'B' k refl,
        digit_ne z b'-' h refl,
        digit_ne z b'+' h refl,
      )
      (ground arith)

unsigned_digits :
    (c : ℕ) (s : Text)
    → All IsDigit (c ∷ s)
    → value_from 10 digit_value 0 (c ∷ s) < safe_limit
    → unsigned pos (c ∷ s) ≡ integer (pos (value_from 10 digit_value 0 (c ∷ s)))
unfolding unsigned
unsigned_digits c s h lt = rw (all_units_lem (c ∷ s) h) (ground arith)

trimmed_number_digits :
    (s : Text)
    → s ≢ []
    → All IsDigit s
    → value_from 10 digit_value 0 s < safe_limit
    → trimmed_number s ≡ integer (pos (value_from 10 digit_value 0 s))
unfolding trimmed_number
trimmed_number_digits [] ne h lt = absurd (ne refl)
trimmed_number_digits (c ∷ []) ne h lt = unsigned_digits c [] h lt
trimmed_number_digits (z ∷ x ∷ s) ne h lt =
    with_prefix_digits z x s h.0 h.1.0 ∙ unsigned_digits z (x ∷ s) h lt

number_of_digits :
    (s : Text)
    → s ≢ []
    → All IsDigit s
    → value_from 10 digit_value 0 s < safe_limit
    → number s ≡ integer (pos (value_from 10 digit_value 0 s))
unfolding number
number_of_digits s ne h lt = rw (trim_digits s h) (trimmed_number_digits s ne h lt)

-- `Number(n.toString())` is `n`.
pub number-digits : (n : ℕ) → n < safe_limit → number (digits n) ≡ integer (pos n)
unfolding digits
number-digits n h =
    let v : value_from 10 digit_value 0 (digits_from (suc n) n) ≡ n =
      value_from-digits_from (suc n) n (omega arith) in
    number_of_digits (digits_from (suc n) n) (digits_from-ne_nil n n)
      (digits_from-IsDigit (suc n) n) (omega (arith, v))
    ∙ ap (λ (k : ℕ). integer (pos k)) v

pub digits-ne_nil : (n : ℕ) → digits n ≢ []
unfolding digits
digits-ne_nil n = digits_from-ne_nil n n

-- The digits of a number are digits: no dash and no dot stands among them.
pub digits-All : (P : ℕ → Type 0) → ((c : ℕ) → is_digit c ≡ true → P c) → (n : ℕ) → All P (digits n)
unfolding digits
digits-All P h n = All-imp (digits_from (suc n) n) (digits_from-IsDigit (suc n) n)
  where
    All-imp : (s : Text) → All IsDigit s → All P s
    All-imp [] _ = tt
    All-imp (c ∷ s) (k, ks) = (h c k, All-imp s ks)
