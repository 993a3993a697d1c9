-- ===== src/Js/Array/Sorting.antt =====
-- `sort` gives a permutation, in the order of its comparator.
use mathlib.Core.List.{Perm}
use mathlib.Core.List.Perm
use mathlib.Core.Path.{subst}
use makoon.Prelude.{
  suc, length, ◌≡◌, ◌≢◌, refl, ap, ◌∙◌, Bool, true, false, some, List, [], ◌∷◌, All, Bool-cases,
  inl, inr,
}
use makoon.Prelude.Int.{ℤ, is_positive}
use makoon.Js.Array.{find, insert, sort}

insert-perm {ℓ} :
    {A : Type ℓ} (cmp : A → A → ℤ) (x : A) (xs : List A) → Perm (insert cmp x xs) (x ∷ xs)
unfolding insert
insert-perm cmp x [] = Perm.refl _
insert-perm cmp x (y ∷ ys) = elim (Bool-cases (is_positive (cmp x y))) [
  | inl after ↦ rw after (Perm.trans (Perm.cons y (insert-perm cmp x ys)) (Perm.swap x y ys))
  | inr before ↦ rw before (Perm.refl _)
]

pub sort-perm {ℓ} : {A : Type ℓ} (cmp : A → A → ℤ) (xs : List A) → Perm (sort cmp xs) xs
unfolding sort
sort-perm cmp [] = Perm.refl _
sort-perm cmp (x ∷ xs) =
    Perm.trans (insert-perm cmp x (sort cmp xs)) (Perm.cons x (sort-perm cmp xs))

-- Every element is related to all that follow it.
abbrev pub IsSorted {ℓ κ} : {A : Type ℓ} → (A → A → Type κ) → List A → Type (ℓ ⊔ κ)
IsSorted R [] = Unit
IsSorted R (x ∷ xs) = All (R x) xs × IsSorted R xs

module _ {ℓ κ} {A : Type ℓ} (P : A → Type κ) (cmp : A → A → ℤ) where
  insert-All : (x : A) (xs : List A) → P x → All P xs → All P (insert cmp x xs)
  unfolding insert
  insert-All x [] p _ = (p, tt)
  insert-All x (y ∷ ys) p (q, h) = elim (Bool-cases (is_positive (cmp x y))) [
    | inl after ↦ rw after (q, insert-All x ys p h)
    | inr before ↦ rw before (p, (q, h))
  ]

  pub sort-All : (xs : List A) → All P xs → All P (sort cmp xs)
  unfolding sort
  sort-All [] _ = tt
  sort-All (x ∷ xs) (p, h) = insert-All x (sort cmp xs) p (sort-All xs h)

module _ {ℓ κ} {A : Type ℓ} (R : A → A → Type κ) (cmp : A → A → ℤ)
    (trans : (x y z : A) → R x y → R y z → R x z)
    (after : (x y : A) → is_positive (cmp x y) ≡ true → R y x)
    (before : (x y : A) → is_positive (cmp x y) ≡ false → R x y) where
  All-trans : (x y : A) (ys : List A) → R x y → All (R y) ys → All (R x) ys
  All-trans x y [] h _ = tt
  All-trans x y (z ∷ zs) h (k, ks) = (trans x y z h k, All-trans x y zs h ks)

  insert-IsSorted : (x : A) (xs : List A) → IsSorted R xs → IsSorted R (insert cmp x xs)
  unfolding insert
  insert-IsSorted x [] _ = (tt, tt)
  insert-IsSorted x (y ∷ ys) (h, hs) = elim (Bool-cases (is_positive (cmp x y))) [
    | inl e ↦ rw e (insert-All (R y) cmp x ys (after x y e) h, insert-IsSorted x ys hs)
    | inr e ↦ rw e ((before x y e, All-trans x y ys (before x y e) h), (h, hs))
  ]

  -- With a comparator that decides a transitive order, `sort` puts the list in that order.
  pub sort-IsSorted : (xs : List A) → IsSorted R (sort cmp xs)
  unfolding sort
  sort-IsSorted [] = tt
  sort-IsSorted (x ∷ xs) = insert-IsSorted x (sort cmp xs) (sort-IsSorted xs)

module _ {ℓ κ} {A : Type ℓ} (P : A → Type κ) (cmp : A → A → ℤ) where
  All-insert : (x : A) (xs : List A) → All P (insert cmp x xs) → P x × All P xs
  unfolding insert
  All-insert x [] (p, _) = (p, tt)
  All-insert x (y ∷ ys) h = elim (Bool-cases (is_positive (cmp x y))) [
    | inl e ↦
        let k : All P (y ∷ insert cmp x ys) = rw (e, insert) at h in
        let (p, hs) = All-insert x ys k.1 in (p, (k.0, hs))
    | inr e ↦ rw (e, insert) at h
  ]

  -- What holds of all elements of the sorted list holds of all elements of the list.
  pub All-sort : (xs : List A) → All P (sort cmp xs) → All P xs
  unfolding sort
  All-sort [] _ = tt
  All-sort (x ∷ xs) h = let (p, hs) = All-insert x (sort cmp xs) h in (p, All-sort xs hs)

pub All-imp {ℓ κ μ} :
    {A : Type ℓ} {P : A → Type κ} {Q : A → Type μ} (xs : List A)
    → ((x : A) → P x → Q x)
    → All P xs
    → All Q xs
All-imp [] f _ = tt
All-imp (x ∷ xs) f (h, hs) = (f x h, All-imp xs f hs)

-- In a sorted list the first element that passes a test comes before all others that pass it.
pub find-least {ℓ κ} :
    {A : Type ℓ} (R : A → A → Type κ) (p : A → Bool) (xs : List A) (x : A)
    → ((y : A) → R y y)
    → IsSorted R xs
    → find p xs ≡ some x
    → All (λ y. p y ≡ true → R x y) xs
unfolding find
find-least R p [] x r _ e = cc
find-least R p (y ∷ ys) x r (h, hs) e = elim (Bool-cases (p y)) [
  | inl t ↦
      let same : some y ≡ some x = rw (t, find) at e in
      let same' : y ≡ x = cc in
      subst (λ w. All (λ z. p z ≡ true → R w z) (y ∷ ys)) same'
        ((λ _. r y), All-imp ys (λ z k _. k) h)
  | inr f ↦
      let rest : find p ys ≡ some x = rw (f, find) at e in
      ((λ t. cc (t, f)), find-least R p ys x r hs rest)
]

insert-ne_nil {ℓ} : {A : Type ℓ} (cmp : A → A → ℤ) (x : A) (xs : List A) → insert cmp x xs ≢ []
unfolding insert
insert-ne_nil cmp x [] = λ e. cc
insert-ne_nil cmp x (y ∷ ys) = elim (Bool-cases (is_positive (cmp x y))) [
  | inl after ↦ rw (after, insert) (λ e. cc)
  | inr before ↦ rw (before, insert) (λ e. cc)
]

pub sort-eq_nil {ℓ} : {A : Type ℓ} (cmp : A → A → ℤ) (xs : List A) → sort cmp xs ≡ [] → xs ≡ []
unfolding sort
sort-eq_nil cmp [] e = refl
sort-eq_nil cmp (x ∷ xs) e = absurd (insert-ne_nil cmp x (sort cmp xs) e)

length-insert {ℓ} :
    {A : Type ℓ} (cmp : A → A → ℤ) (x : A) (xs : List A)
    → length (insert cmp x xs) ≡ suc (length xs)
unfolding insert
length-insert cmp x [] = refl
length-insert cmp x (y ∷ ys) = elim (Bool-cases (is_positive (cmp x y))) [
  | inl after ↦ rw (after, insert) (ap suc (length-insert cmp x ys))
  | inr before ↦ rw (before, insert)
]

pub length-sort {ℓ} :
    {A : Type ℓ} (cmp : A → A → ℤ) (xs : List A) → length (sort cmp xs) ≡ length xs
unfolding sort
length-sort cmp [] = refl
length-sort cmp (x ∷ xs) = length-insert cmp x (sort cmp xs) ∙ ap suc (length-sort cmp xs)
