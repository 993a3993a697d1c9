-- ===== src/Nodes.antt =====
-- web/src-web/src/utils/nodes.ts: the proposal for a further node of a cluster.
pub mod Naming
pub mod Fresh
pub mod Proposal
use makoon.Prelude.{
  ℕ, ◌+◌, Bool, Option, none, some, List, [], ◌∷◌, ◌++◌, length, ltb, Text, units, ◌==◌,
  if◌then◌else◌,
}
use makoon.Prelude.Int.{ℤ, pos, negsuc, ◌+ℤ◌, ◌-ℤ◌}
use makoon.Js.Array.{find, sort}
use makoon.Js.Text.{last_index_of, substring, substring_from}
use makoon.Js.Number.{Numeral, integer, not_a_number, other, number, to_text}
use makoon.Model.{ClusterNode, ClusterNodeType, master, worker}
use makoon.Model.Names.{node_type_eq, node_type_name}

abbrev pub vm_id_asc : ClusterNode → ClusterNode → ℤ
vm_id_asc a b = a.vm_id -ℤ b.vm_id

abbrev pub vm_id_desc : ClusterNode → ClusterNode → ℤ
vm_id_desc a b = b.vm_id -ℤ a.vm_id

abbrev pub has_type : ClusterNodeType → ClusterNode → Bool
has_type t e = e.node_type == t

-- The distance from the smallest id to the first id of the other type.
abbrev pub first_step : ClusterNodeType → ℕ → ℤ
first_step worker n = if ltb 5 n then pos n else pos 5
first_step master n = negsuc 4

-- `float_text s step` is `(Number(s) + step).toString()` where `Number(s)` is no integer below
-- 2 ^ 52: the arithmetic of floating point numbers is not modelled.
module _ (float_text : Text → ℤ → Text) where
  abbrev sum_text : Text → Numeral → ℤ → Text
  sum_text s (integer n) step = to_text (n +ℤ step)
  sum_text s not_a_number step = units "NaN"
  sum_text s other step = float_text s step

  -- `(Number(s) + step).toString()`.
  abbrev add_text : Text → ℤ → Text
  add_text s step = sum_text s (number s) step

  -- The name and the address of the next node, from those of `node`.
  next_name : Text → ℤ → Text
  next_name name step =
      let name_prefix = substring name (pos 0) (last_index_of b'-' name) in
      let name_number = substring_from name (last_index_of b'-' name +ℤ pos 1) in
      name_prefix ++ units "-" ++ add_text name_number step

  next_address : Text → ℤ → Text
  next_address ip_address step =
      let last_octet_idx = last_index_of b'.' ip_address in
      let first_octets = substring ip_address (pos 0) (last_octet_idx +ℤ pos 1) in
      let last_octet = substring_from ip_address (last_octet_idx +ℤ pos 1) in
      first_octets ++ add_text last_octet step

  unfoldable pub create_next_node_definition : ClusterNode → ℤ → ClusterNode
  unfolding next_name next_address
  create_next_node_definition node step = record {
    vm_id = node.vm_id +ℤ step;
    storage_pool = node.storage_pool;
    cores = node.cores;
    memory = node.memory;
    node_type = node.node_type;
    name = next_name node.name step;
    ip_address = next_address node.ip_address step;
    lock = none;
  }

  -- The branch where no node has the type: `nodes` is sorted in place a second time.
  abbrev first_of_type : List ClusterNode → ClusterNodeType → ℕ → ClusterNode → ClusterNode
  first_of_type [] t n default_master_node = default_master_node
  first_of_type (any_node ∷ _) t n default_master_node =
      record (create_next_node_definition any_node (first_step t n)) {
        name = node_type_name t ++ units "-1";
        node_type = t;
      }

  abbrev next_of_type :
      Option ClusterNode → List ClusterNode → ClusterNodeType → ClusterNode → ClusterNode
  next_of_type (some latest) nodes t default_master_node =
      create_next_node_definition latest (pos 1)
  next_of_type none nodes t default_master_node =
      first_of_type (sort vm_id_asc nodes) t (length nodes) default_master_node

  unfoldable pub generate_node : List ClusterNode → ClusterNodeType → ClusterNode → ClusterNode
  generate_node i_nodes t default_master_node =
      let nodes = sort vm_id_desc i_nodes in
      next_of_type (find (has_type t) nodes) nodes t default_master_node
