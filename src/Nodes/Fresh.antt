-- ===== src/Nodes/Fresh.antt =====
-- Which ids utils/nodes.ts proposes, beside those that are taken.
use mathlib.Core.Path.{subst}
use makoon.Prelude.{
  ◌≡◌, ◌≢◌, refl, true, none, some, List, [], ◌∷◌, arith, All, length, Text, ◌++◌, units, ◌⊎◌,
  ==_iff, ==_false, Option-cases, inl, inr,
}
use makoon.Prelude.Int.{ℤ, ◌≤ℤ◌, ◌<ℤ◌, int_laws, is_positive-sub, is_positive-sub_false}
use makoon.Js.Array.{find, sort}
use makoon.Js.Array.Search.{find-none, find_missing}
use makoon.Js.Array.Sorting.{
  IsSorted, sort-IsSorted, All-sort, All-imp, find-least, sort-All, sort-eq_nil, length-sort,
}
use makoon.Model.{ClusterNode, ClusterNodeType}
use makoon.Model.Names.{node_type_eq, node_type_name}
use makoon.Nodes.{
  vm_id_asc, vm_id_desc, has_type, first_step, create_next_node_definition, generate_node,
}

abbrev pub UpTo : ClusterNode → ClusterNode → Type 0
UpTo a b = a.vm_id ≤ℤ b.vm_id

abbrev pub DownTo : ClusterNode → ClusterNode → Type 0
DownTo a b = b.vm_id ≤ℤ a.vm_id

-- Sorting by `vmIdAsc` and by `vmIdDesc`.
pub sort-vm_id_asc-IsSorted : (nodes : List ClusterNode) → IsSorted UpTo (sort vm_id_asc nodes)
sort-vm_id_asc-IsSorted =
    sort-IsSorted UpTo vm_id_asc (λ x y z h k. omega arith)
      (λ x y e. let h = (is_positive-sub x.vm_id y.vm_id).0 e in omega arith)
      (λ x y e. (is_positive-sub_false x.vm_id y.vm_id).0 e)

pub sort-vm_id_desc-IsSorted : (nodes : List ClusterNode) → IsSorted DownTo (sort vm_id_desc nodes)
sort-vm_id_desc-IsSorted =
    sort-IsSorted DownTo vm_id_desc (λ x y z h k. omega arith)
      (λ x y e. let h = (is_positive-sub y.vm_id x.vm_id).0 e in omega arith)
      (λ x y e. (is_positive-sub_false y.vm_id x.vm_id).0 e)

-- The node that `generateNode` starts from has the largest id of its type.
pub latest-DownTo :
    (nodes : List ClusterNode) (t : ClusterNodeType) (latest : ClusterNode)
    → find (has_type t) (sort vm_id_desc nodes) ≡ some latest
    → All (λ e. has_type t e ≡ true → DownTo latest e) nodes
latest-DownTo nodes t latest e = All-sort _ vm_id_desc nodes (
    find-least DownTo (has_type t) (sort vm_id_desc nodes) latest (λ y. omega arith)
      (sort-vm_id_desc-IsSorted nodes) e)

module _ (float_text : Text → ℤ → Text) (nodes : List ClusterNode) (t : ClusterNodeType)
    (d : ClusterNode) where
  -- For every list of nodes, the id that `generateNode` proposes is above the id of every node of
  -- the requested type.
  pub generate_node-fresh_in_type :
      All (λ e. e.node_type ≡ t → e.vm_id <ℤ (generate_node float_text nodes t d).vm_id) nodes
  unfolding generate_node create_next_node_definition
  generate_node-fresh_in_type = elim (Option-cases (find (has_type t) (sort vm_id_desc nodes))) [
    | inl e ↦
        All-imp nodes (λ x h k. absurd (cc (h, (==_iff x.node_type t).1 k)))
          (All-sort _ vm_id_desc nodes (find-none (has_type t) (sort vm_id_desc nodes) e))
    | inr (latest, e) ↦ rw e (
        All-imp nodes (λ x h k. let below = h ((==_iff x.node_type t).1 k) in omega int_laws)
          (latest-DownTo nodes t latest e))
  ]

List-cases :
    (xs : List ClusterNode)
    → (xs ≡ []) ⊎ ((x : ClusterNode) × (rest : List ClusterNode) × (xs ≡ x ∷ rest))
List-cases [] = inl refl
List-cases (x ∷ rest) = inr (x, rest, refl)

smallest :
    (x : ClusterNode) (rest xs : List ClusterNode)
    → xs ≡ x ∷ rest
    → IsSorted UpTo xs
    → All (UpTo x) xs
smallest x rest [] e _ = cc
smallest x rest (y ∷ ys) e (h, _) =
    let same : y ≡ x = cc in subst (λ w. All (UpTo w) (y ∷ ys)) same (omega arith, h)

head_All :
    (P : ClusterNode → Type 0) (x : ClusterNode) (rest xs : List ClusterNode)
    → xs ≡ x ∷ rest
    → All P xs
    → P x
head_All P x rest [] e _ = cc
head_All P x rest (y ∷ ys) e (h, _) = let same : y ≡ x = cc in subst P same h

module _ (float_text : Text → ℤ → Text) (nodes : List ClusterNode) (t : ClusterNodeType)
    (d : ClusterNode) where
  -- Where no node has the type, the proposal is made from the node with the smallest id.
  pub generate_node-first :
      All (λ e. e.node_type ≢ t) nodes
      → nodes ≢ []
      → (any_node : ClusterNode) × All (UpTo any_node) nodes
        × ((b : ℤ) → All (λ e. b ≤ℤ e.vm_id) nodes → b ≤ℤ any_node.vm_id)
        × (generate_node float_text nodes t d
            ≡ record (create_next_node_definition float_text any_node
                (first_step t (length nodes))) {
                  name = node_type_name t ++ units "-1";
                  node_type = t;
                })
  unfolding generate_node
  generate_node-first none_of_type ne =
      let sorted = sort vm_id_desc nodes in
      let missing : find (has_type t) sorted ≡ none = find_missing (has_type t) sorted (
        sort-All _ vm_id_desc nodes
          (All-imp nodes (λ x h. ==_false x.node_type t h) none_of_type)) in
      elim (List-cases (sort vm_id_asc sorted)) [
        | inl e ↦ absurd (ne (sort-eq_nil vm_id_desc nodes (sort-eq_nil vm_id_asc sorted e)))
        | inr (any_node, rest, e) ↦ (
          any_node,
          All-sort _ vm_id_desc nodes (
              All-sort _ vm_id_asc sorted (
                smallest any_node rest (sort vm_id_asc sorted) e (sort-vm_id_asc-IsSorted sorted))),
          (λ b h.
              head_All (λ x. b ≤ℤ x.vm_id) any_node rest _ e
                (sort-All _ vm_id_asc sorted (sort-All _ vm_id_desc nodes h))),
          rw (missing, e, length-sort vm_id_desc nodes),
        )
      ]
