-- ===== src/Js/Array.antt =====
-- The methods of `Array.prototype` that the program calls.
pub mod Sorting
pub mod Search
use makoon.Prelude.{ℕ, suc, Bool, Option, none, some, List, [], ◌∷◌, ◌++◌, set, if◌then◌else◌}
use makoon.Prelude.Int.{ℤ, is_positive}

abbrev shift : Option ℕ → Option ℕ
shift none = none
shift (some i) = some (suc i)

module _ {ℓ} {A : Type ℓ} where
  -- `find`; `none` is `undefined`.
  unfoldable pub find : (A → Bool) → List A → Option A
  find p [] = none
  find p (x ∷ xs) = if p x then some x else find p xs

  -- `findIndex`; `none` is -1.
  unfoldable pub find_index : (A → Bool) → List A → Option ℕ
  find_index p [] = none
  find_index p (x ∷ xs) = if p x then some 0 else shift (find_index p xs)

  unfoldable pub filter : (A → Bool) → List A → List A
  filter p [] = []
  filter p (x ∷ xs) = let rest = filter p xs in if p x then x ∷ rest else rest

  -- `xs[i] = v` after a search for `i`. At -1 the assignment makes a property that is no element:
  -- the elements stay as they are.
  abbrev pub set_at : Option ℕ → A → List A → List A
  set_at none v xs = xs
  set_at (some i) v xs = set xs i v

  abbrev pub push : List A → A → List A
  push xs x = xs ++ x ∷ []

  -- `x` goes behind the elements that the comparator puts before it, and ahead of its equals.
  insert : (A → A → ℤ) → A → List A → List A
  insert cmp x [] = x ∷ []
  insert cmp x (y ∷ ys) = if is_positive (cmp x y) then y ∷ insert cmp x ys else x ∷ y ∷ ys

  -- `sort` by a comparator, which is stable.
  unfoldable pub sort : (A → A → ℤ) → List A → List A
  unfolding insert
  sort cmp [] = []
  sort cmp (x ∷ xs) = insert cmp x (sort cmp xs)
