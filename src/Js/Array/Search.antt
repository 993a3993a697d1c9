-- ===== src/Js/Array/Search.antt =====
-- What `find`, `findIndex` and `filter` find, and what a write at a found index does.
use makoon.Prelude.{
  ℕ, zero, suc, ◌≡◌, refl, ap, Bool, true, false, Option, none, some, List, [], ◌∷◌, ◌++◌, arith,
  All, length, set, Bool-cases, Option-cases, inl, inr,
}
use makoon.Js.Array.{find, find_index, filter, set_at}

module _ {ℓ} {A : Type ℓ} (p : A → Bool) where
  -- What is found passes the test.
  pub find-some : (xs : List A) (x : A) → find p xs ≡ some x → p x ≡ true
  unfolding find
  find-some [] x e = cc
  find-some (y ∷ ys) x e = ground (arith, find-some ys x)

  -- Nothing is found where nothing passes the test, and then the index is -1.
  pub find-none : (xs : List A) → find p xs ≡ none → All (λ x. p x ≡ false) xs
  unfolding find
  find-none [] e = tt
  find-none (y ∷ ys) e = ground (arith, find-none ys)

  pub find_missing : (xs : List A) → All (λ x. p x ≡ false) xs → find p xs ≡ none
  unfolding find
  find_missing [] _ = refl
  find_missing (y ∷ ys) (h, hs) = rw (h, find) (find_missing ys hs)

  pub find_index-none : (xs : List A) → find p xs ≡ none → find_index p xs ≡ none
  unfolding find find_index
  find_index-none [] e = refl
  find_index-none (y ∷ ys) e = ground (arith, find_index-none ys)

  -- Every element that `filter` keeps passes the test.
  pub filter-All_test : (xs : List A) → All (λ x. p x ≡ true) (filter p xs)
  unfolding filter
  filter-All_test [] = tt
  filter-All_test (x ∷ xs) = elim (Bool-cases (p x)) [
    | inl e ↦ rw (e, filter) (e, filter-All_test xs)
    | inr e ↦ rw (e, filter) (filter-All_test xs)
  ]

  pub filter-append : (xs ys : List A) → filter p (xs ++ ys) ≡ filter p xs ++ filter p ys
  unfolding filter
  filter-append [] ys = refl
  filter-append (x ∷ xs) ys = ground (arith, filter-append xs ys)

  -- What passes the test everywhere is kept whole, in place.
  pub filter_kept : (xs : List A) → All (λ x. p x ≡ true) xs → filter p xs ≡ xs
  unfolding filter
  filter_kept [] _ = refl
  filter_kept (x ∷ xs) (e, h) = rw (e, filter) (ap (◌∷◌ x) (filter_kept xs h))

  pub filter_none : (xs : List A) → All (λ x. p x ≡ false) xs → filter p xs ≡ []
  unfolding filter
  filter_none [] _ = refl
  filter_none (x ∷ xs) (e, h) = rw (e, filter) (filter_none xs h)

  -- A write at the index of the first match: a later search for it finds what was written.
  pub find-set_at_self :
      (v : A) (xs : List A) (x : A)
      → p v ≡ true
      → find p xs ≡ some x
      → find p (set_at (find_index p xs) v xs) ≡ some v
  unfolding find find_index
  find-set_at_self v [] x pv e = cc
  find-set_at_self v (y ∷ ys) x pv e = elim (Bool-cases (p y)) [
    | inl e1 ↦ ground arith
    | inr e1 ↦ elim (Option-cases (find_index p ys)) [
      | inl e2 ↦ ground (arith, find-set_at_self v ys x pv)
      | inr (i, e2) ↦ ground (arith, find-set_at_self v ys x pv)
    ]
  ]

module _ {ℓ} {A : Type ℓ} (p q : A → Bool) where
  -- A search that tells the old and the new element from what it looks for is not disturbed.
  pub find-set_at_ne :
      (v : A) (xs : List A)
      → ((x : A) → p x ≡ true → q x ≡ false)
      → q v ≡ false
      → find q (set_at (find_index p xs) v xs) ≡ find q xs
  unfolding find find_index
  find-set_at_ne v [] apart qv = refl
  find-set_at_ne v (y ∷ ys) apart qv = elim (Bool-cases (p y)) [
    | inl e1 ↦ ground (arith, apart y)
    | inr e1 ↦ elim (Option-cases (find_index p ys)) [
      | inl e2 ↦ ground (arith, find-set_at_ne v ys apart qv)
      | inr (i, e2) ↦ ground (arith, find-set_at_ne v ys apart qv)
    ]
  ]

  -- Removing what passes `not p` cannot hide an element that `q` finds, if `q` implies `p`.
  pub find-filter :
      (xs : List A) → ((x : A) → q x ≡ true → p x ≡ true) → find q (filter p xs) ≡ find q xs
  unfolding find filter
  find-filter [] h = refl
  find-filter (x ∷ xs) h = ground (arith, h x, find-filter xs h)

module _ {ℓ κ} {A : Type ℓ} (P : A → Type κ) where
  pub find-All : (p : A → Bool) (xs : List A) (x : A) → All P xs → find p xs ≡ some x → P x
  unfolding find
  find-All p [] x _ e = cc
  find-All p (y ∷ ys) x (h, hs) e = elim (Bool-cases (p y)) [
    | inl e1 ↦ ground arith
    | inr e1 ↦ find-All p ys x hs (ground arith)
  ]

  pub filter-All : (p : A → Bool) (xs : List A) → All P xs → All P (filter p xs)
  unfolding filter
  filter-All p [] _ = tt
  filter-All p (x ∷ xs) (h, hs) = elim (Bool-cases (p x)) [
    | inl e ↦ rw (e, filter) (h, filter-All p xs hs)
    | inr e ↦ rw (e, filter) (filter-All p xs hs)
  ]

  -- What holds of all that `filter` keeps holds of every element that passes the test.
  pub All-filter :
      (p : A → Bool) (xs : List A) → All P (filter p xs) → All (λ x. p x ≡ true → P x) xs
  unfolding filter
  All-filter p [] _ = tt
  All-filter p (x ∷ xs) h = elim (Bool-cases (p x)) [
    | inl e ↦
        let k : P x × All P (filter p xs) = rw (e, filter) at h in ((λ _. k.0), All-filter p xs k.1)
    | inr e ↦
        let k : All P (filter p xs) = rw (e, filter) at h in ((λ t. cc (t, e)), All-filter p xs k)
  ]

  pub set-All : (i : ℕ) (v : A) (xs : List A) → P v → All P xs → All P (set xs i v)
  set-All i v [] h _ = tt
  set-All zero v (x ∷ xs) h (_, hs) = (h, hs)
  set-All (suc i) v (x ∷ xs) h (k, hs) = (k, set-All i v xs h hs)

  pub set_at-All : (i : Option ℕ) (v : A) (xs : List A) → P v → All P xs → All P (set_at i v xs)
  set_at-All none v xs h hs = hs
  set_at-All (some i) v xs h hs = set-All i v xs h hs

pub length-set {ℓ} : {A : Type ℓ} (i : ℕ) (v : A) (xs : List A) → length (set xs i v) ≡ length xs
length-set i v [] = refl
length-set zero v (x ∷ xs) = refl
length-set (suc i) v (x ∷ xs) = ap suc (length-set i v xs)

pub length-set_at {ℓ} :
    {A : Type ℓ} (i : Option ℕ) (v : A) (xs : List A) → length (set_at i v xs) ≡ length xs
length-set_at none v xs = refl
length-set_at (some i) v xs = length-set i v xs
