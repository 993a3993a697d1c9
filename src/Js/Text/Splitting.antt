-- ===== src/Js/Text/Splitting.antt =====
-- Cutting a text at the last occurrence of a code unit.
use makoon.Prelude.{
  ℕ, ◌≤◌, ◌+◌, ◌≡◌, ◌≢◌, refl, ◌∙◌, ap, [], ◌∷◌, ◌++◌, arith, All, length, length-append, take,
  drop, take-append, take_all, Text, ◌-◌, suc,
}
use makoon.Prelude.Int.{ℤ, pos, negsuc, ◌+ℤ◌}
use makoon.Js.Text.{last_index_from, last_index_of, substring, substring_from}

abbrev pub Lacks : ℕ → Text → Type 0
Lacks c s = All (λ x. x ≢ c) s

last_index_from-Lacks :
    (c i : ℕ) (s : Text) (best : ℤ) → Lacks c s → last_index_from c i s best ≡ best
unfolding last_index_from
last_index_from-Lacks c i [] best _ = refl
last_index_from-Lacks c i (x ∷ xs) best (h, hs) =
    ground (arith, last_index_from-Lacks c (i + 1) xs best hs)

last_index_from-append :
    (c i : ℕ) (s t : Text) (best : ℤ)
    → Lacks c t
    → last_index_from c i (s ++ c ∷ t) best ≡ pos (i + length s)
unfolding last_index_from
last_index_from-append c i [] t best h = ground (arith, last_index_from-Lacks c (i + 1) t (pos i) h)
last_index_from-append c i (x ∷ xs) t best h = ground (
  arith,
  last_index_from-append c (i + 1) xs t best h,
  last_index_from-append c (i + 1) xs t (pos i) h,
)

-- Without an occurrence the index is -1.
pub last_index_of-Lacks : (c : ℕ) (s : Text) → Lacks c s → last_index_of c s ≡ negsuc 0
unfolding last_index_of
last_index_of-Lacks c s h = last_index_from-Lacks c 0 s (negsuc 0) h

pub last_index_of-append :
    (c : ℕ) (s t : Text) → Lacks c t → last_index_of c (s ++ c ∷ t) ≡ pos (length s)
unfolding last_index_of
last_index_of-append c s t h = last_index_from-append c 0 s t (negsuc 0) h ∙ ap pos (omega arith)

-- The part before an index, and the part behind the unit at an index.
pub substring_before : (s t : Text) → substring (s ++ t) (pos 0) (pos (length s)) ≡ s
unfolding substring
substring_before s t = ground (arith, length-append s t, take-append s t)

drop_behind : (c : ℕ) (s t : Text) → drop (suc (length s)) (s ++ c ∷ t) ≡ t
drop_behind c [] t = refl
drop_behind c (x ∷ xs) t = drop_behind c xs t

substring_to_end :
    (i : ℕ) (s : Text) → i ≤ length s → substring_from s (pos i) ≡ take (length s - i) (drop i s)
unfolding substring
substring_to_end i s h = ground arith

pub substring_from_behind :
    (c : ℕ) (s t : Text) → substring_from (s ++ c ∷ t) (pos (length s) +ℤ pos 1) ≡ t
substring_from_behind c s t =
    let n : pos (length s) +ℤ pos 1 ≡ pos (suc (length s)) = unfold ◌+ℤ◌ in ground arith in
    rw n (
      substring_to_end (suc (length s)) (s ++ c ∷ t) (omega (arith, length-append s (c ∷ t)))
      ∙ rw (drop_behind c s t) (take_all _ t (omega (arith, length-append s (c ∷ t)))))

take_through : (c : ℕ) (s t : Text) → take (suc (length s)) (s ++ c ∷ t) ≡ s ++ c ∷ []
take_through c [] t = refl
take_through c (x ∷ xs) t = ap (◌∷◌ x) (take_through c xs t)

substring_to : (j : ℕ) (s : Text) → j ≤ length s → substring s (pos 0) (pos j) ≡ take j s
unfolding substring
substring_to j s h = ground arith

substring_through :
    (c : ℕ) (s t : Text) → substring (s ++ c ∷ t) (pos 0) (pos (length s) +ℤ pos 1) ≡ s ++ c ∷ []
substring_through c s t =
    let n : pos (length s) +ℤ pos 1 ≡ pos (suc (length s)) = unfold ◌+ℤ◌ in ground arith in
    rw n (
      substring_to (suc (length s)) (s ++ c ∷ t) (omega (arith, length-append s (c ∷ t)))
      ∙ take_through c s t)

-- From index -1 a `substring` takes the whole text, and up to it nothing.
pub substring_from_start : (s : Text) → substring_from s (negsuc 0 +ℤ pos 1) ≡ s
unfolding ◌+ℤ◌
substring_from_start s = substring_to_end 0 s (omega arith) ∙ take_all _ s (omega arith)

pub substring_before_start : (s : Text) → substring s (pos 0) (negsuc 0) ≡ []
unfolding substring
substring_before_start s = ground arith

-- The last occurrence of `c` cuts `s ++ c ∷ t` into `s`, or `s` and `c`, and `t`.
module _ (c : ℕ) (s t : Text) (lacks : Lacks c t) where
  pub substring-cut : substring (s ++ c ∷ t) (pos 0) (last_index_of c (s ++ c ∷ t)) ≡ s
  substring-cut = rw (last_index_of-append c s t lacks) (substring_before s (c ∷ t))

  pub substring_from-cut : substring_from (s ++ c ∷ t) (last_index_of c (s ++ c ∷ t) +ℤ pos 1) ≡ t
  substring_from-cut = rw (last_index_of-append c s t lacks) (substring_from_behind c s t)

  pub substring-cut_behind :
      substring (s ++ c ∷ t) (pos 0) (last_index_of c (s ++ c ∷ t) +ℤ pos 1) ≡ s ++ c ∷ []
  substring-cut_behind = rw (last_index_of-append c s t lacks) (substring_through c s t)
