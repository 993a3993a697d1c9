-- ===== src/Patterns/Names.antt =====
-- Which names the three patterns of utils/patterns.ts accept together.
use makoon.Prelude.{
  ℕ, ◌≡◌, refl, arith, Bool, true, false, Bool-cases, inl, inr, ◌&&◌, [], ◌∷◌, is_empty, Text,
  nat_eq,
}
use makoon.Js.Regex.{any_then, some_then, test, dot, one_or_more, any_number}
use makoon.Patterns.{alphanumeric, name_unit, hostname_main, hostname_start, hostname_end}

abbrev all_units : (ℕ → Bool) → Text → Bool
all_units p [] = true
all_units p (c ∷ s) = p c && all_units p s

any_then-is_empty : (p : ℕ → Bool) (s : Text) → any_then p is_empty s ≡ all_units p s
unfolding any_then
any_then-is_empty p [] = refl
any_then-is_empty p (c ∷ s) = ground (arith, any_then-is_empty p s)

module _ (a n : ℕ → Bool) where
  -- Whether a text that goes on after `c` has units of the class `n` only, and ends with one of `a`.
  abbrev pub goes_on : ℕ → Text → Bool
  goes_on c [] = a c
  goes_on c (e ∷ s) = n e && goes_on e s

  -- A text that starts and ends with a unit of the class `a`, and has units of `n` between.
  abbrev pub is_framed : Text → Bool
  is_framed [] = false
  is_framed (c ∷ s) = a c && goes_on c s

module _ (a n d : ℕ → Bool) where
  -- Whether a text behind `c` ends with a unit of the class `a`.
  abbrev ends : ℕ → Text → Bool
  ends c [] = a c
  ends c (e ∷ s) = ends e s

  goes_on-ends : (c : ℕ) (s : Text) → goes_on a n c s ≡ (all_units n s && ends c s)
  goes_on-ends c [] = refl
  goes_on-ends c (e ∷ s) = ground (arith, goes_on-ends e s)

  all_units-ends : (c : ℕ) (s : Text) → a c ≡ true → all_units a s ≡ true → ends c s ≡ true
  all_units-ends c [] h k = h
  all_units-ends c (e ∷ s) h k = ground (arith, all_units-ends e s)

  -- The backtracking of `.*[…]+` on a text of one line.
  end_of_line :
      (c : ℕ) (s : Text)
      → all_units d (c ∷ s) ≡ true
      → any_then d (some_then a is_empty) (c ∷ s) ≡ ends c s
  unfolding any_then
  end_of_line c [] h = ground arith
  end_of_line c (e ∷ s) h =
      ground (arith, end_of_line e s, all_units-ends e s, any_then-is_empty a s)

  -- `[…]+.*` asks nothing more of a text of one line than its first unit.
  rest_of_line : (s : Text) → all_units d s ≡ true → any_then a (any_then d is_empty) s ≡ true
  unfolding any_then
  rest_of_line [] h = refl
  rest_of_line (c ∷ s) h = ground (arith, any_then-is_empty d s)

  module _ (on_line : (c : ℕ) → n c ≡ true → d c ≡ true)
      (inside : (c : ℕ) → a c ≡ true → n c ≡ true) where
    all_on_line : (s : Text) → all_units n s ≡ true → all_units d s ≡ true
    all_on_line [] h = refl
    all_on_line (c ∷ s) h = ground (arith, on_line c, all_on_line s)

    tests-is_framed :
        (s : Text)
        → (test (one_or_more n ∷ []) s
            && test (one_or_more a ∷ any_number d ∷ []) s
            && test (any_number d ∷ one_or_more a ∷ []) s)
          ≡ is_framed a n s
    tests-is_framed [] = refl
    tests-is_framed (c ∷ s) = elim (Bool-cases (all_units n (c ∷ s))) [
      | inl h ↦
          let line = all_on_line (c ∷ s) h in
          ground
            (arith, any_then-is_empty n s, end_of_line c s line, rest_of_line s, goes_on-ends c s)
      | inr h ↦ ground (arith, any_then-is_empty n s, goes_on-ends c s, inside c)
    ]

-- A name of a cluster or a node: it starts and ends with a letter or a digit, and has letters,
-- digits, dashes and bars between.
abbrev pub is_name : Text → Bool
is_name = is_framed alphanumeric name_unit

-- The three patterns that the forms test a name with accept together exactly the texts that start
-- and end with a letter or a digit and have letters, digits, dashes and bars, `|`, between.
pub patterns-is_name :
    (s : Text) → (test hostname_main s && test hostname_start s && test hostname_end s) ≡ is_name s
patterns-is_name s =
    tests-is_framed alphanumeric name_unit dot (λ c h. ground arith) (λ c h. ground arith) s
