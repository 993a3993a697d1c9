-- ===== src/Displays/Sizes.antt =====
-- web/src-web/src/utils/size.ts
use makoon.Prelude.{
  ℕ, zero, suc, ◌+◌, ◌-◌, ◌*◌, ◌/◌, ◌≤◌, arith, Option, none, some, [], ◌∷◌, ◌++◌, length, take,
  drop, ltb, Text, units, nat_eq, ◌==◌, if◌then◌else◌,
}
use makoon.Js.Number.{digits}

-- The whole number of hundredths that `toFixed(2)` shows of v / 1024: the nearest one, and the larger
-- of two that are as near. The quotient is exact, since 1024 is a power of 2.
unfoldable pub hundredths : ℕ → ℕ
hundredths v = (v * 100 + 512) / 1024

abbrev zeros : ℕ → Text
zeros zero = []
zeros (suc n) = b'0' ∷ zeros n

-- The text of `n` hundredths: with two digits behind the point and at least one before it.
unfoldable pub fixed : ℕ → Text
fixed n =
    let m = zeros (3 - length (digits n)) ++ digits n in
    let k = length m - 2 in take k m ++ units "." ++ drop k m

unfoldable pub to_human_readable_size : Option ℕ → Text
unfolding hundredths fixed
to_human_readable_size none = units "0 MiB"
to_human_readable_size (some v) =
    if v == 0
    then units "0 MiB"
    else if ltb v 1024
    then fixed (v * 100) ++ units " MiB"
    else fixed (hundredths v) ++ units " GiB"

-- The size shown in GiB is off by at most half a hundredth: 1024 times the hundredths shown differ
-- from 100 times the size in MiB by at most 512.
pub hundredths_near :
    (v : ℕ) → (hundredths v * 1024 ≤ v * 100 + 512) × (v * 100 ≤ hundredths v * 1024 + 511)
unfolding hundredths
hundredths_near v = (omega arith, omega arith)
