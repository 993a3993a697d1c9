-- ===== src/Creator/Members.antt =====
-- Nodes, Helm apps and resources of the cluster of cluster-creator-store.ts.
use mathlib.Core.Path.{subst}
use mathlib.Core.List.{Perm, perm_middle}
use mathlib.Core.List.Perm
use makoon.Prelude.{
  ◌≡◌, refl, true, false, not, none, some, List, [], ◌∷◌, ◌++◌, arith, All, ◌==◌, ==_iff, int_eq,
  Bool-cases, inl, inr, ◌⊎◌, if◌then◌else◌,
}
use makoon.Prelude.Int.{ℤ}
use makoon.Js.Array.{find, filter}
use makoon.Js.Array.Search.{
  find-set_at_self, find-set_at_ne, find-filter, filter-All_test, find_missing, find_index-none,
}
use makoon.Js.Array.Sorting.{IsSorted, sort-perm, sort-All, All-imp}
use makoon.Model.{ClusterNode, ClusterNodeType, master, worker}
use makoon.Model.Names.{node_type_eq}
use makoon.Nodes.Fresh.{UpTo, sort-vm_id_asc-IsSorted}
use makoon.World.{ClusterCreatorStore}
use makoon.Creator.{
  vm_id_asc, has_id, update_node, delete_node, find_node, nodes_of_type, master_nodes, worker_nodes,
}

-- Each table of the wizard shows nodes of its type only, in ascending order of their ids.
pub nodes_of_type-IsSorted :
    (t : ClusterNodeType) (s : ClusterCreatorStore)
    → IsSorted UpTo (nodes_of_type t s) × All (λ e. e.node_type ≡ t) (nodes_of_type t s)
unfolding nodes_of_type
nodes_of_type-IsSorted t s = (
  sort-vm_id_asc-IsSorted _,
  sort-All _ vm_id_asc _ (
      All-imp (filter (λ e. e.node_type == t) s.cluster.nodes) (λ x h. (==_iff x.node_type t).0 h)
        (filter-All_test (λ (e : ClusterNode). e.node_type == t) s.cluster.nodes)),
)

type-cases :
    (t : ClusterNodeType)
    → (((t == master) ≡ true) × ((t == worker) ≡ false))
      ⊎ (((t == master) ≡ false) × ((t == worker) ≡ true))
type-cases master = inl (refl, refl)
type-cases worker = inr (refl, refl)

pub filters-perm :
    (nodes : List ClusterNode)
    → Perm
        (filter (λ e. e.node_type == master) nodes ++ filter (λ e. e.node_type == worker) nodes)
        nodes
unfolding filter
filters-perm [] = Perm.refl []
filters-perm (x ∷ xs) = elim (type-cases x.node_type) [
  | inl (m, w) ↦ rw (m, w) (Perm.cons x (filters-perm xs))
  | inr (m, w) ↦
      rw (m, w)
        (Perm.trans
          (perm_middle (filter (λ n. n.node_type == master) xs)
            (filter (λ n. n.node_type == worker) xs))
          (Perm.cons x (filters-perm xs)))
]

-- The wizard's tables of masters and of workers together show every node of the cluster once.
pub master_nodes-worker_nodes-perm :
    (s : ClusterCreatorStore) → Perm (master_nodes s ++ worker_nodes s) s.cluster.nodes
unfolding nodes_of_type
master_nodes-worker_nodes-perm s =
    Perm.trans (Perm.append (sort-perm vm_id_asc _) (sort-perm vm_id_asc _))
      (filters-perm s.cluster.nodes)

id_other :
    (id j : ℤ) (e : ClusterNode) → (id == j) ≡ false → has_id id e ≡ true → has_id j e ≡ false
id_other id j e ne h = ground (arith, ==_iff id j, ==_iff e.vm_id id, ==_iff e.vm_id j)

-- After an edit that keeps the id of a node that is there, that id finds the edited node, and every
-- other id finds what it found before.
pub find_node-update_node :
    (id j : ℤ) (old new : ClusterNode) (s : ClusterCreatorStore)
    → find_node id s ≡ some old
    → new.vm_id ≡ id
    → find_node j (update_node id new s) ≡ (if id == j then some new else find_node j s)
unfolding find_node update_node
find_node-update_node id j old new s e same = elim (Bool-cases (id == j)) [
  | inl eq ↦
      let at_id =
        find-set_at_self (has_id id) new s.cluster.nodes old ((==_iff new.vm_id id).1 same) e in
      rw eq (
        subst (λ k. find (has_id k) (update_node id new s).cluster.nodes ≡ some new)
          ((==_iff id j).0 eq) at_id)
  | inr ne ↦ rw ne (
      find-set_at_ne (has_id id) (has_id j) new s.cluster.nodes (λ x. id_other id j x ne)
        (id_other id j new ne ((==_iff new.vm_id id).1 same)))
]

-- An edit of an id that no node has changes nothing in the wizard's store.
pub update_node_missing :
    (id : ℤ) (new : ClusterNode) (s : ClusterCreatorStore)
    → find_node id s ≡ none
    → update_node id new s ≡ s
unfolding find_node update_node
update_node_missing id new s e = rw (find_index-none (has_id id) s.cluster.nodes e)

-- After a deletion the deleted id finds no node, and every other id finds what it found before.
pub find_node-delete_node :
    (id j : ℤ) (s : ClusterCreatorStore)
    → find_node j (delete_node id s) ≡ (if id == j then none else find_node j s)
unfolding find_node delete_node
find_node-delete_node id j s = elim (Bool-cases (id == j)) [
  | inl eq ↦ rw eq (
      subst (λ k. find (has_id k) (filter (λ e. not (has_id id e)) s.cluster.nodes) ≡ none)
        ((==_iff id j).0 eq)
        (find_missing (has_id id) _ (
          All-imp _ (λ x h. ground arith)
            (filter-All_test (λ e. not (has_id id e)) s.cluster.nodes))))
  | inr ne ↦ rw ne (
      find-filter (λ e. not (has_id id e)) (has_id j) s.cluster.nodes
        (λ x h. ground (arith, id_other id j x ne)))
]
