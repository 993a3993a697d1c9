-- ===== src/Nodes/Proposal.antt =====
-- What the whole of `generateNode` of utils/nodes.ts proposes, for every list of nodes.
use mathlib.Core.Path.{subst}
use makoon.Prelude.{
  ℕ, ◌≡◌, ◌≢◌, refl, ap, ◌∙◌, true, List, [], ◌∷◌, arith, All, length, Text, inl, inr, Option-cases,
  ==_iff, if◌then◌else◌, is_empty, Any, Any-All,
}
use makoon.Prelude.Int.{ℤ, pos, ◌+ℤ◌, ◌≤ℤ◌, ◌<ℤ◌, int_laws, eq_of_parts}
use makoon.Js.Array.{find, sort}
use makoon.Js.Array.Search.{find-some, find-none, find-All}
use makoon.Js.Array.Sorting.{All-imp, All-sort, sort-All}
use makoon.Model.{ClusterNode, ClusterNodeType, master, worker}
use makoon.Model.Names.{node_type_eq}
use makoon.Nodes.{vm_id_desc, has_type, first_step, create_next_node_definition, generate_node}
use makoon.Nodes.Fresh.{latest-DownTo, generate_node-first}

pub first_step_worker : (n : ℕ) (z : ℤ) → z +ℤ pos 5 ≤ℤ z +ℤ first_step worker n
unfolding ◌+ℤ◌
first_step_worker n z = ground arith

module _ (float_text : Text → ℤ → Text) (nodes : List ClusterNode) (d : ClusterNode) where
  -- The first master of a cluster of workers gets an id below all ids in use.
  pub generate_node-first_master :
      nodes ≢ []
      → All (λ e. e.node_type ≢ master) nodes
      → All (λ e. (generate_node float_text nodes master d).vm_id <ℤ e.vm_id) nodes
  unfolding create_next_node_definition
  generate_node-first_master ne h =
      let (any_node, least, _, e) = generate_node-first float_text nodes master d h ne in
      rw e (All-imp nodes (λ x up. omega int_laws) least)

  -- The first worker of a cluster of masters gets an id above all ids in use, where these lie in a
  -- range of five.
  pub generate_node-first_worker :
      (base : ℤ)
      → nodes ≢ []
      → All (λ e. e.node_type ≢ worker) nodes
      → All (λ e. (base ≤ℤ e.vm_id) × (e.vm_id <ℤ base +ℤ pos 5)) nodes
      → All (λ e. e.vm_id <ℤ (generate_node float_text nodes worker d).vm_id) nodes
  unfolding create_next_node_definition
  generate_node-first_worker base ne h range =
      let (any_node, _, bound, e) = generate_node-first float_text nodes worker d h ne in
      let low = bound base (All-imp nodes (λ x r. r.0) range) in
      let far = first_step_worker (length nodes) any_node.vm_id in
      rw e (All-imp nodes (λ x r. below x any_node low r.1 far) range)
    where
      below :
          (x any_node : ClusterNode)
          → base ≤ℤ any_node.vm_id
          → x.vm_id <ℤ base +ℤ pos 5
          → any_node.vm_id +ℤ pos 5 ≤ℤ any_node.vm_id +ℤ first_step worker (length nodes)
          → x.vm_id <ℤ any_node.vm_id +ℤ first_step worker (length nodes)
      below x any_node low high far = omega int_laws

-- Where a node of the requested type has the largest id of its type, the proposed id is the one after
-- it, whatever other nodes there are: also where a node of the other type has that id.
pub generate_node-latest :
    (float_text : Text → ℤ → Text) (nodes : List ClusterNode) (t : ClusterNodeType)
    (d latest : ClusterNode)
    → Any (λ e. e ≡ latest) nodes
    → latest.node_type ≡ t
    → All (λ e. e.node_type ≡ t → e.vm_id ≤ℤ latest.vm_id) nodes
    → (generate_node float_text nodes t d).vm_id ≡ latest.vm_id +ℤ pos 1
unfolding generate_node create_next_node_definition
generate_node-latest float_text nodes t d latest has_latest type most =
    elim (Option-cases (find (has_type t) (sort vm_id_desc nodes))) [
      | inl e ↦ absurd (
          Any-All nodes (λ x same lacks. cc (ap (has_type t) same, of_type, lacks)) has_latest
            (All-sort _ vm_id_desc nodes (find-none (has_type t) (sort vm_id_desc nodes) e)))
      | inr (l, e) ↦
          let l_type =
            (==_iff l.node_type t).0 (find-some (has_type t) (sort vm_id_desc nodes) l e) in
          let at_most =
            find-All _ (has_type t) (sort vm_id_desc nodes) l (sort-All _ vm_id_desc nodes most) e
              l_type in
          let at_least =
            Any-All {R = latest.vm_id ≤ℤ l.vm_id} nodes
              (λ x same down.
                subst (λ w. w.vm_id ≤ℤ l.vm_id) same (down (ap (has_type t) same ∙ of_type)))
              has_latest (latest-DownTo nodes t l e) in
          let same_id : l.vm_id ≡ latest.vm_id = eq_of_parts l.vm_id latest.vm_id (omega arith) in
          rw e (ap (λ w. w +ℤ pos 1) same_id)
    ]
  where
    of_type : has_type t latest ≡ true
    of_type = (==_iff latest.node_type t).1 type

-- The proposal has the requested type, except that an empty cluster gets the default node, whatever
-- type was asked for.
pub generate_node-node_type :
    (float_text : Text → ℤ → Text) (nodes : List ClusterNode) (t : ClusterNodeType)
    (d : ClusterNode)
    → (generate_node float_text nodes t d).node_type ≡ (if is_empty nodes then d.node_type else t)
unfolding generate_node create_next_node_definition
generate_node-node_type float_text [] t d = unfold sort find in refl
generate_node-node_type float_text (x ∷ xs) t d =
    let nodes = x ∷ xs in
    elim (Option-cases (find (has_type t) (sort vm_id_desc nodes))) [
      | inl e ↦
          let others =
            All-sort _ vm_id_desc nodes (find-none (has_type t) (sort vm_id_desc nodes) e) in
          let (_, _, _, made) =
            generate_node-first float_text nodes t d
              (All-imp nodes (λ y h k. cc (h, (==_iff y.node_type t).1 k)) others) (λ h. cc) in
          ap (λ (n : ClusterNode). n.node_type) made
      | inr (l, e) ↦
          rw e ((==_iff l.node_type t).0 (find-some (has_type t) (sort vm_id_desc nodes) l e))
    ]
