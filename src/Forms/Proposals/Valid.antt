-- ===== src/Forms/Proposals/Valid.antt =====
-- The nodes that utils/nodes.ts proposes, against the schema of the forms for a node.
use makoon.Prelude.{
  ℕ, ◌+◌, ◌<◌, ◌≤◌, ◌≡◌, ◌≢◌, ◌↔◌, ◌∙◌, refl, ap, arith, true, [], ◌∷◌, ◌++◌, length, length-append,
  Text, nat_eq,
}
use makoon.Prelude.Int.{ℤ, pos, ◌+ℤ◌, ◌≤ℤ◌}
use makoon.Js.Number.{digits, safe_limit}
use makoon.Js.Number.RoundTrip.{digits-ne_nil}
use makoon.Model.{ClusterNode}
use makoon.Nodes.{create_next_node_definition}
use makoon.Nodes.Naming.{create_next_node_definition_numbered}
use makoon.Wizard.Initials.{shown_of}
use makoon.Forms.{Yup, IsDocumented}
use makoon.Forms.Schemas.{schema_add_node}
use makoon.Forms.Values.{node_values}
use makoon.Forms.Nodes.{IsNodeForm, is_valid-schema_add_node}
use makoon.Forms.Proposals.{to_text_sum, create_next_node_definition-is_name}

-- A sum with a natural number stays above a bound.
bound-sum : (a : ℤ) (step : ℕ) → pos 100 ≤ℤ a → pos 100 ≤ℤ (a +ℤ pos step)
unfolding ◌+ℤ◌
bound-sum a step h = ground arith

length-ne_nil : (t : Text) → t ≢ [] → 1 ≤ length t
length-ne_nil [] h = absurd (h refl)
length-ne_nil (c ∷ t) h = omega arith

address_long : (net : Text) (k : ℕ) → 5 ≤ length net → 7 ≤ length (net ++ b'.' ∷ digits k)
address_long net k h =
    let some_digit = length-ne_nil (digits k) (digits-ne_nil k) in
    omega (arith, length-append net (b'.' ∷ digits k))

IsNodeForm-next :
    (float_text : Text → ℤ → Text) (node : ClusterNode) (step : ℕ) (stem net : Text) (n k : ℕ)
    → n < safe_limit
    → k < safe_limit
    → node.name ≡ stem ++ b'-' ∷ digits n
    → node.ip_address ≡ net ++ b'.' ∷ digits k
    → 5 ≤ length net
    → IsNodeForm (shown_of node)
    → let next = create_next_node_definition float_text node (pos step) in
      IsNodeForm (shown_of next) ↔ ((length next.name ≤ 128) × (next.vm_id ≤ℤ pos 4294967296))
unfolding create_next_node_definition
IsNodeForm-next float_text node step stem net n k hn hk name address long
      (a, b, c, d, e, f, g, h, i) =
    let next = create_next_node_definition float_text node (pos step) in
    let same =
      create_next_node_definition_numbered float_text node (pos step) stem net n k hn hk name
        address in
    let next_address : next.ip_address ≡ net ++ b'.' ∷ digits (k + step) =
      ap (λ (x : ClusterNode). x.ip_address) same
      ∙ ap (λ t. net ++ b'.' ∷ t) (to_text_sum k step) in
    let next_long : 7 ≤ length next.ip_address =
      rw next_address (address_long net (k + step) long) in
    (
      λ v. (v.1, v.3),
      λ v. (
        create_next_node_definition-is_name float_text node step stem n hn name a,
        v.0,
        bound-sum node.vm_id step c,
        v.1,
        e,
        f,
        g,
        next_long,
        i,
      ),
    )

-- Where a valid node has the name `stem-n` and the address `net.k`, with `n` and `k` below 2 ^ 52 and at
-- least five units in `net`, the form is valid with the node proposed after it, `step` further, exactly
-- where the proposed name has at most 128 units and the proposed id is at most 4294967296; here `y` is
-- what the documentation of the library Yup says.
pub is_valid-create_next_node_definition :
    (y : Yup) (doc : IsDocumented y) (float_text : Text → ℤ → Text) (node : ClusterNode) (step : ℕ)
    (stem net : Text) (n k : ℕ)
    → n < safe_limit
    → k < safe_limit
    → node.name ≡ stem ++ b'-' ∷ digits n
    → node.ip_address ≡ net ++ b'.' ∷ digits k
    → 5 ≤ length net
    → y.is_valid schema_add_node (node_values (shown_of node)) ≡ true
    → let next = create_next_node_definition float_text node (pos step) in
      (y.is_valid schema_add_node (node_values (shown_of next)) ≡ true)
      ↔ ((length next.name ≤ 128) × (next.vm_id ≤ℤ pos 4294967296))
is_valid-create_next_node_definition y doc float_text node step stem net n k hn hk name address long
      valid =
    let next = create_next_node_definition float_text node (pos step) in
    let both = is_valid-schema_add_node y doc (shown_of next) in
    let (to, from) =
      IsNodeForm-next float_text node step stem net n k hn hk name address long
        ((is_valid-schema_add_node y doc (shown_of node)).0 valid) in
    (λ h. to (both.0 h), λ h. both.1 (from h))
