-- ===== src/Forms/Proposals.antt =====
-- The names that utils/nodes.ts proposes, against the patterns of the form for a node.
pub mod Valid
use mathlib.Core.Path.{subst}
use makoon.Prelude.{
  ℕ, ◌+◌, ◌<◌, ◌≡◌, ◌≢◌, refl, arith, true, ◌&&◌, [], ◌∷◌, ◌++◌, All, Text, nat_eq,
}
use makoon.Prelude.Int.{ℤ, pos, ◌+ℤ◌}
use makoon.Js.Text.{all_units}
use makoon.Js.Number.{digits, to_text, safe_limit, is_digit}
use makoon.Js.Number.RoundTrip.{digits-All, digits-ne_nil}
use makoon.Patterns.{alphanumeric, name_unit}
use makoon.Patterns.Names.{goes_on, is_name}
use makoon.Model.{ClusterNode}
use makoon.Nodes.{create_next_node_definition}
use makoon.Nodes.Naming.{create_next_node_definition-name_numbered}

goes_on-append :
    (c : ℕ) (s : Text) (e : ℕ) (t : Text)
    → goes_on alphanumeric name_unit c (s ++ e ∷ t)
      ≡ (all_units name_unit s && name_unit e && goes_on alphanumeric name_unit e t)
goes_on-append c [] e t = refl
goes_on-append c (d ∷ s) e t = ground (arith, goes_on-append d s e t)

-- Digits end a name.
goes_on-digits :
    (e : ℕ) (t : Text)
    → All (λ c. is_digit c ≡ true) t
    → t ≢ []
    → goes_on alphanumeric name_unit e t ≡ true
goes_on-digits e [] h full = absurd (full refl)
goes_on-digits e (c ∷ []) (d, h) full = ground arith
goes_on-digits e (c ∷ f ∷ t) (d, h) full = ground (arith, goes_on-digits c (f ∷ t) h (λ k. cc))

is_name-numbered :
    (c : ℕ) (s : Text) (n : ℕ)
    → is_name (c ∷ s ++ b'-' ∷ digits n) ≡ (alphanumeric c && all_units name_unit s)
is_name-numbered c s n = ground (
  arith,
  goes_on-append c s b'-' (digits n),
  goes_on-digits b'-' (digits n) (digits-All (λ x. is_digit x ≡ true) (λ x h. h) n)
      (digits-ne_nil n),
)

pub to_text_sum : (n k : ℕ) → to_text (pos n +ℤ pos k) ≡ digits (n + k)
unfolding to_text ◌+ℤ◌
to_text_sum n k = ground arith

-- Whether such a text is a name depends on the part ahead of the dash only.
stem_decides :
    (stem : Text) (n m : ℕ)
    → is_name (stem ++ b'-' ∷ digits m) ≡ true
    → is_name (stem ++ b'-' ∷ digits n) ≡ true
stem_decides [] n m h = cc
stem_decides (c ∷ s) n m h = cc (is_name-numbered c s n, is_name-numbered c s m)

-- Where a node has the name `stem-n`, with `n` below 2 ^ 52, and the form takes that name as a name,
-- then the patterns also take the name that is proposed after it, `step` further.
pub create_next_node_definition-is_name :
    (float_text : Text → ℤ → Text) (node : ClusterNode) (step : ℕ) (stem : Text) (n : ℕ)
    → n < safe_limit
    → node.name ≡ stem ++ b'-' ∷ digits n
    → is_name node.name ≡ true
    → is_name (create_next_node_definition float_text node (pos step)).name ≡ true
unfolding to_text
create_next_node_definition-is_name float_text node step stem n safe name h =
    rw
      (
        create_next_node_definition-name_numbered float_text node (pos step) stem n safe name,
        to_text_sum n step,
      )
      (stem_decides stem (n + step) n (subst (λ x. is_name x ≡ true) name h))
