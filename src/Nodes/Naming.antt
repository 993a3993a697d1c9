-- ===== src/Nodes/Naming.antt =====
-- The names and addresses that utils/nodes.ts counts up.
use mathlib.Core.List.{append_assoc}
use makoon.Prelude.{ℕ, ◌<◌, ◌≡◌, ◌≢◌, ap, true, none, ◌∷◌, ◌++◌, Text, units}
use makoon.Prelude.Int.{ℤ, pos, ◌+ℤ◌}
use makoon.Js.Text.Splitting.{
  Lacks, substring-cut, substring_from-cut, substring-cut_behind, last_index_of-Lacks,
  substring_from_start, substring_before_start,
}
use makoon.Js.Number.{not_a_number, number, digits, to_text, safe_limit, is_digit}
use makoon.Js.Number.RoundTrip.{number-digits, digits-All}
use makoon.Model.{ClusterNode}
use makoon.Nodes.{next_name, next_address, create_next_node_definition}

digits-Lacks : (c n : ℕ) → is_digit c ≢ true → Lacks c (digits n)
digits-Lacks c n h = digits-All (λ x. x ≢ c) (λ x d e. h (rw e at d)) n

module _ (float_text : Text → ℤ → Text) (stem : Text) (n : ℕ) (step : ℤ)
    (safe : n < safe_limit) where
  next_name_numbered :
      next_name float_text (stem ++ b'-' ∷ digits n) step ≡ stem ++ b'-' ∷ to_text (pos n +ℤ step)
  unfolding next_name
  next_name_numbered =
      let lacks = digits-Lacks b'-' n (λ e. cc) in
      rw (
        substring_from-cut b'-' stem (digits n) lacks,
        substring-cut b'-' stem (digits n) lacks,
        number-digits n safe,
        append_assoc,
      )

  next_address_numbered :
      next_address float_text (stem ++ b'.' ∷ digits n) step
      ≡ stem ++ b'.' ∷ to_text (pos n +ℤ step)
  unfolding next_address
  next_address_numbered =
      let lacks = digits-Lacks b'.' n (λ e. cc) in
      rw (
        substring_from-cut b'.' stem (digits n) lacks,
        substring-cut_behind b'.' stem (digits n) lacks,
        number-digits n safe,
        append_assoc,
      )

-- The node after one named `stem-n` at the address `net.k`, `step` further, where `n` and `k` are
-- below 2 ^ 52: its name is `stem-(n+step)`, its address `net.(k+step)` with no carry into `net`,
-- its id is `step` larger, it has no lock, and cores, memory, storage and type are those of the
-- node.
pub create_next_node_definition_numbered :
    (float_text : Text → ℤ → Text) (node : ClusterNode) (step : ℤ) (stem net : Text) (n k : ℕ)
    → n < safe_limit
    → k < safe_limit
    → node.name ≡ stem ++ b'-' ∷ digits n
    → node.ip_address ≡ net ++ b'.' ∷ digits k
    → create_next_node_definition float_text node step ≡ record {
      vm_id = node.vm_id +ℤ step;
      name = stem ++ b'-' ∷ to_text (pos n +ℤ step);
      cores = node.cores;
      memory = node.memory;
      ip_address = net ++ b'.' ∷ to_text (pos k +ℤ step);
      storage_pool = node.storage_pool;
      node_type = node.node_type;
      lock = none;
    }
unfolding create_next_node_definition
create_next_node_definition_numbered float_text node step stem net n k hn hk name address = cc (
  ap (λ x. next_name float_text x step) name,
  next_name_numbered float_text stem n step hn,
  ap (λ x. next_address float_text x step) address,
  next_address_numbered float_text net k step hk,
)

-- The name alone, whatever the address is.
pub create_next_node_definition-name_numbered :
    (float_text : Text → ℤ → Text) (node : ClusterNode) (step : ℤ) (stem : Text) (n : ℕ)
    → n < safe_limit
    → node.name ≡ stem ++ b'-' ∷ digits n
    → (create_next_node_definition float_text node step).name
      ≡ stem ++ b'-' ∷ to_text (pos n +ℤ step)
unfolding create_next_node_definition
create_next_node_definition-name_numbered float_text node step stem n h name =
    cc (ap (λ x. next_name float_text x step) name, next_name_numbered float_text stem n step h)

-- A name without a dash that is no numeral, such as `master`, is followed by the name `-NaN`.
pub create_next_node_definition-name_nan :
    (float_text : Text → ℤ → Text) (node : ClusterNode) (step : ℤ)
    → Lacks b'-' node.name
    → number node.name ≡ not_a_number
    → (create_next_node_definition float_text node step).name ≡ units "-NaN"
unfolding create_next_node_definition next_name
create_next_node_definition-name_nan float_text node step lacks nan = rw (
  last_index_of-Lacks b'-' node.name lacks,
  substring_from_start node.name,
  substring_before_start node.name,
  nan,
)
