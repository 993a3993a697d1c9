-- ===== src/Prelude/Equality.antt =====
-- Equality tests as an interface: `===` of the source at every type that has an instance.
-- A text is the list of its UTF-16 code units, as a JavaScript string is.
use Prim.Native.Nat.{ℕ}
use Prim.Native.Char.{code}
use Prim.Native.String.{String}
use mathlib.Core.Path.{◌≡◌, refl}
use mathlib.Core.Logic.{◌↔◌, ◌≢◌}
use mathlib.Core.Bool.{Bool, true, false, ◌&&◌}
use mathlib.Core.List.{List, [], ◌∷◌}
use native.Mathlib.Omega.{arith}
use makoon.Prelude.Tests.{nat_beq, nat_beq_iff}
use makoon.Prelude.Int.{ℤ, int_beq, int_beq_iff}

-- A test of a type's values, and what its answer means.
pub record Eq {ℓ} (V : Type ℓ) : Type ℓ where
  pub same : V → V → Bool
  pub same_iff : (v w : V) → (same v w ≡ true) ↔ (v ≡ w)

abbrev pub Text : Type 0
Text = List ℕ

-- The code units of an ASCII literal.
abbrev pub units : String → Text
units String.[] = []
units (String.◌∷◌ c s) = code c ∷ units s

abbrev pub text_beq : Text → Text → Bool
text_beq [] [] = true
text_beq (c ∷ s) (d ∷ t) = nat_beq c d && text_beq s t
text_beq _ _ = false

pub text_beq_iff : (s t : Text) → (text_beq s t ≡ true) ↔ (s ≡ t)
text_beq_iff [] [] = (λ _. refl, λ _. refl)
text_beq_iff [] (d ∷ t) = (λ h. cc, λ h. cc)
text_beq_iff (c ∷ s) [] = (λ h. cc, λ h. cc)
text_beq_iff (c ∷ s) (d ∷ t) =
    (λ h. ground (arith, text_beq_iff s t), λ h. ground (arith, text_beq_iff s t))

instance abbrev pub text_eq : Eq Text
text_eq = record { same = text_beq; same_iff = text_beq_iff }

instance abbrev pub int_eq : Eq ℤ
int_eq = record { same = int_beq; same_iff = int_beq_iff }

instance abbrev pub nat_eq : Eq ℕ
nat_eq = record { same = nat_beq; same_iff = nat_beq_iff }

module _ {ℓ} {V : Type ℓ} ⦃test : Eq V⦄ where
  infix 50 ◌==◌
  abbrev pub ◌==◌ : V → V → Bool
  v == w = test.same v w

  pub ==_iff : (v w : V) → ((v == w) ≡ true) ↔ (v ≡ w)
  ==_iff v w = test.same_iff v w

  pub ==_refl : (v : V) → (v == v) ≡ true
  ==_refl v = (test.same_iff v v).1 refl

  pub ==_false : (v w : V) → v ≢ w → (v == w) ≡ false
  ==_false v w h = ground (arith, test.same_iff v w)
