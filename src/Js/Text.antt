-- ===== src/Js/Text.antt =====
-- The methods of `String.prototype` that the program calls, over UTF-16 code units.
pub mod Splitting
use makoon.Prelude.{
  ℕ, ◌+◌, ◌-◌, Bool, false, ◌||◌, ◌&&◌, [], ◌∷◌, length, take, drop, leb, Text, ◌==◌, nat_eq,
  if◌then◌else◌,
}
use makoon.Prelude.Int.{ℤ, pos, negsuc, pos_part}

-- The scan of `lastIndexOf`: `i` is the index of the next code unit, `best` the last hit so far.
last_index_from : ℕ → ℕ → Text → ℤ → ℤ
last_index_from c i [] best = best
last_index_from c i (x ∷ xs) best = last_index_from c (i + 1) xs (if x == c then pos i else best)

-- `s.lastIndexOf(c)` for one code unit `c`: -1 where it does not occur.
unfoldable pub last_index_of : ℕ → Text → ℤ
unfolding last_index_from
last_index_of c s = last_index_from c 0 s (negsuc 0)

-- An index brought into the range of the text.
abbrev clamp : ℤ → Text → ℕ
clamp z s = if leb (pos_part z) (length s) then pos_part z else length s

-- `s.substring(a, b)`: both ends are clamped, and swapped if they are out of order.
unfoldable pub substring : Text → ℤ → ℤ → Text
substring s a b =
    let i = clamp a s in
    let j = clamp b s in if leb i j then take (j - i) (drop i s) else take (i - j) (drop j s)

-- `s.substring(a)`.
abbrev pub substring_from : Text → ℤ → Text
substring_from s a = substring s a (pos (length s))

-- White space and line terminators, which `trim` and `Number` remove.
unfoldable pub is_space : ℕ → Bool
is_space c =
    (leb 9 c && leb c 13)
    || c == 32
    || c == 0xa0
    || c == 0x1680
    || (leb 0x2000 c && leb c 0x200a)
    || c == 0x2028
    || c == 0x2029
    || c == 0x202f
    || c == 0x205f
    || c == 0x3000
    || c == 0xfeff

abbrev pub all_units : (ℕ → Bool) → Text → Bool
all_units p [] = Bool.true
all_units p (x ∷ xs) = p x && all_units p xs

unfoldable pub trim_start : Text → Text
unfolding is_space
trim_start [] = []
trim_start (x ∷ xs) = let rest = trim_start xs in if is_space x then rest else x ∷ xs

unfoldable pub trim_end : Text → Text
unfolding is_space
trim_end [] = []
trim_end (x ∷ xs) = let rest = trim_end xs in if all_units is_space (x ∷ xs) then [] else x ∷ rest

unfoldable pub trim : Text → Text
unfolding trim_start trim_end
trim s = trim_start (trim_end s)
