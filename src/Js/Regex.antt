-- ===== src/Js/Regex.antt =====
-- The regular expressions that the program writes: `^` and `$` around a sequence of classes of units,
-- each repeated. Without flags `.` is any unit but a line terminator.
use makoon.Prelude.{
  ℕ, Bool, false, not, ◌&&◌, ◌||◌, List, [], ◌∷◌, is_empty, leb, Text, nat_eq, ◌==◌,
}

pub data Part : Type 0 where
  -- `[…]+` and `[…]*`
  one_or_more any_number : (ℕ → Bool) → Part

-- A repeated class and what follows, with backtracking.
unfoldable pub any_then : (ℕ → Bool) → (Text → Bool) → Text → Bool
any_then c k [] = k []
any_then c k (x ∷ s) = let rest = any_then c k s in k (x ∷ s) || (c x && rest)

abbrev pub some_then : (ℕ → Bool) → (Text → Bool) → Text → Bool
some_then c k [] = false
some_then c k (x ∷ s) = c x && any_then c k s

-- `test` of the expression on the whole text.
abbrev pub test : List Part → Text → Bool
test [] s = is_empty s
test (one_or_more c ∷ r) s = some_then c (test r) s
test (any_number c ∷ r) s = any_then c (test r) s

abbrev pub between : ℕ → ℕ → ℕ → Bool
between a b c = leb a c && leb c b

-- `.`
abbrev pub dot : ℕ → Bool
dot c = not (c == 10 || c == 13 || c == 0x2028 || c == 0x2029)
