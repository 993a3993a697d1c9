-- ===== src/Creator/Adding.antt =====
-- The button "Add node" of the wizard, pressed any number of times: addNode of
-- cluster-creator-store.ts and generateNode of utils/nodes.ts.
use makoon.Prelude.{
  ℕ, ◌+◌, ◌≤◌, ◌≡◌, ◌≢◌, ◌⊎◌, arith, List, [], ◌∷◌, length, All, Any, Any-All, All-append, Text,
  Option-cases, Bool-cases, inl, inr, ==_iff, ◌==◌,
}
use makoon.Prelude.Int.{ℤ, pos, ◌+ℤ◌, ◌≤ℤ◌, ◌<ℤ◌, int_laws}
use makoon.Js.Array.{push, find, sort}
use makoon.Js.Array.Search.{find-some, find-none, find-All}
use makoon.Js.Array.Sorting.{All-imp, All-sort, sort-All}
use makoon.Model.{ClusterNode, ClusterNodeType, master, worker}
use makoon.Model.Names.{node_type_eq}
use makoon.World.{ClusterCreatorStore}
use makoon.Nodes.{vm_id_desc, has_type, first_step, create_next_node_definition, generate_node}
use makoon.Nodes.Fresh.{generate_node-first, generate_node-fresh_in_type}
use makoon.Nodes.Proposal.{first_step_worker, generate_node-node_type}
use makoon.Creator.{add_node}
use makoon.Creator.Distinct.{
  IsDistinct, push-IsDistinct, push-Any, node_type_cases, All-both, lt_ne, gt_ne,
}

-- Where the ids of masters and of workers may be, with `m` masters and the first one at `a`.
abbrev InRange : ℤ → ℕ → ClusterNode → Type 0
InRange a m e =
    (e.node_type ≡ master → (a ≤ℤ e.vm_id) × (e.vm_id <ℤ a +ℤ pos m))
    × (e.node_type ≡ worker → a +ℤ pos 5 ≤ℤ e.vm_id)

abbrev Holds : ℤ → ℕ → List ClusterNode → Type 0
Holds a m nodes = All (InRange a m) nodes × IsDistinct nodes × Any (λ e. e.node_type ≡ master) nodes

-- How many of the clicks are on the button of the masters.
abbrev pub masters_in : List ClusterNodeType → ℕ
masters_in [] = 0
masters_in (master ∷ ts) = masters_in ts + 1
masters_in (worker ∷ ts) = masters_in ts

module _ (float_text : Text → ℤ → Text) (d : ClusterNode) where
  new_type :
      (nodes : List ClusterNode) (t : ClusterNodeType)
      → Any (λ e. e.node_type ≡ master) nodes
      → (generate_node float_text nodes t d).node_type ≡ t
  new_type [] t h = absurd h
  new_type (x ∷ xs) t h = generate_node-node_type float_text (x ∷ xs) t d

  -- Where a node has the type, a bound on the ids of that type bounds the new id.
  new_id :
      (P : ℤ → Type 0) (nodes : List ClusterNode) (t : ClusterNodeType)
      → Any (λ e. e.node_type ≡ t) nodes
      → All (λ e. e.node_type ≡ t → P (e.vm_id +ℤ pos 1)) nodes
      → P (generate_node float_text nodes t d).vm_id
  unfolding generate_node create_next_node_definition
  new_id P nodes t some_of_type bound =
      let sorted = sort vm_id_desc nodes in
      elim (Option-cases (find (has_type t) sorted)) [
        | inl e ↦ absurd (
            Any-All nodes (λ x same lacks. cc ((==_iff x.node_type t).1 same, lacks)) some_of_type
              (All-sort _ vm_id_desc nodes (find-none (has_type t) sorted e)))
        | inr (latest, e) ↦ rw e (
            find-All _ (has_type t) sorted latest (sort-All _ vm_id_desc nodes bound) e
              ((==_iff latest.node_type t).0 (find-some (has_type t) sorted latest e)))
      ]

  below_next :
      (a z : ℤ) (m : ℕ)
      → (a ≤ℤ z) × (z <ℤ a +ℤ pos m)
      → (a ≤ℤ z +ℤ pos 1) × (z +ℤ pos 1 <ℤ a +ℤ pos (m + 1))
  below_next a z m (h, k) = (omega int_laws, omega int_laws)

  below_workers : (a y z : ℤ) (m : ℕ) → m + 1 ≤ 5 → y <ℤ a +ℤ pos (m + 1) → a +ℤ pos 5 ≤ℤ z → y <ℤ z
  below_workers a y z m few h k = omega int_laws

  wider : (a z : ℤ) (m : ℕ) → z <ℤ a +ℤ pos m → z <ℤ a +ℤ pos (m + 1)
  wider a z m h = omega int_laws

  add_master :
      (a : ℤ) (m : ℕ) (nodes : List ClusterNode)
      → m + 1 ≤ 5
      → Holds a m nodes
      → Holds a (m + 1) (push nodes (generate_node float_text nodes master d))
  add_master a m nodes few (ranges, distinct, has_master) =
      let new = generate_node float_text nodes master d in
      let type = new_type nodes master has_master in
      let range =
        new_id (λ z. (a ≤ℤ z) × (z <ℤ a +ℤ pos (m + 1))) nodes master has_master
          (All-imp nodes (λ x r k. below_next a x.vm_id m (r.0 k)) ranges) in
      let fresh = generate_node-fresh_in_type float_text nodes master d in
      (
        All-append (InRange a (m + 1)) nodes (new ∷ [])
            (All-imp nodes (λ x r. ((λ k. ((r.0 k).0, wider a x.vm_id m (r.0 k).1)), r.1)) ranges)
            (((λ _. range), (λ k. absurd (ground arith))), tt),
        push-IsDistinct nodes new distinct (
            All-imp nodes
              (λ x (r, f). elim (node_type_cases x.node_type) [
                | inl e ↦ lt_ne x.vm_id new.vm_id (f e)
                | inr e ↦
                    gt_ne x.vm_id new.vm_id
                      (below_workers a new.vm_id x.vm_id m few range.1 (r.1 e))
              ])
              (All-both _ _ nodes ranges fresh)),
        push-Any _ nodes new has_master,
      )

  above_masters : (a y z : ℤ) (m : ℕ) → m ≤ 5 → y <ℤ a +ℤ pos m → a +ℤ pos 5 ≤ℤ z → y <ℤ z
  above_masters a y z m few h k = omega int_laws

  -- Whether some node has the type.
  one_of_type :
      (t : ClusterNodeType) (nodes : List ClusterNode)
      → Any (λ e. e.node_type ≡ t) nodes ⊎ All (λ e. e.node_type ≢ t) nodes
  one_of_type t [] = inr tt
  one_of_type t (x ∷ xs) = elim (Bool-cases (x.node_type == t)) [
    | inl e ↦ inl (inl ((==_iff x.node_type t).0 e))
    | inr e ↦ elim (one_of_type t xs) [
      | inl h ↦ inl (inr h)
      | inr h ↦ inr ((λ k. cc ((==_iff x.node_type t).1 k, e)), h)
    ]
  ]

  not_empty : (nodes : List ClusterNode) → Any (λ e. e.node_type ≡ master) nodes → nodes ≢ []
  not_empty [] h e = absurd h
  not_empty (x ∷ xs) h e = cc

  far : (a b c : ℤ) → a ≤ℤ b → b +ℤ pos 5 ≤ℤ c → a +ℤ pos 5 ≤ℤ c
  far a b c h k = omega int_laws

  new_worker_id :
      (a : ℤ) (m : ℕ) (nodes : List ClusterNode)
      → m ≤ 5
      → Holds a m nodes
      → a +ℤ pos 5 ≤ℤ (generate_node float_text nodes worker d).vm_id
  unfolding create_next_node_definition
  new_worker_id a m nodes few (ranges, distinct, has_master) = elim (one_of_type worker nodes) [
    | inl some_worker ↦
        new_id (λ z. a +ℤ pos 5 ≤ℤ z) nodes worker some_worker
          (All-imp nodes (λ x r k. let low = r.1 k in omega int_laws) ranges)
    | inr none_of_type ↦
        let low : All (λ e. a ≤ℤ e.vm_id) nodes =
          All-imp nodes
            (λ x (r, other). elim (node_type_cases x.node_type) [
              | inl e ↦ (r.0 e).0
              | inr e ↦ absurd (other e)
            ])
            (All-both _ _ nodes ranges none_of_type) in
        let (any_node, _, bound, made) =
          generate_node-first float_text nodes worker d none_of_type (not_empty nodes has_master) in
        rw made (
          far a any_node.vm_id (any_node.vm_id +ℤ first_step worker (length nodes)) (bound a low)
            (first_step_worker (length nodes) any_node.vm_id))
  ]

  add_worker :
      (a : ℤ) (m : ℕ) (nodes : List ClusterNode)
      → m ≤ 5
      → Holds a m nodes
      → Holds a m (push nodes (generate_node float_text nodes worker d))
  add_worker a m nodes few (ranges, distinct, has_master) =
      let new = generate_node float_text nodes worker d in
      let type = new_type nodes worker has_master in
      let high = new_worker_id a m nodes few (ranges, distinct, has_master) in
      let fresh = generate_node-fresh_in_type float_text nodes worker d in
      (
        All-append (InRange a m) nodes (new ∷ []) ranges
            (((λ k. absurd (ground arith)), (λ _. high)), tt),
        push-IsDistinct nodes new distinct (
            All-imp nodes
              (λ x (r, f). elim (node_type_cases x.node_type) [
                | inl e ↦
                    lt_ne x.vm_id new.vm_id (above_masters a x.vm_id new.vm_id m few (r.0 e).1 high)
                | inr e ↦ lt_ne x.vm_id new.vm_id (f e)
              ])
              (All-both _ _ nodes ranges fresh)),
        push-Any _ nodes new has_master,
      )

-- The button "Add node" of either section, once for each type of the list.
abbrev pub add_all :
    (Text → ℤ → Text)
    → ClusterNode
    → List ClusterNodeType
    → ClusterCreatorStore
    → ClusterCreatorStore
add_all float_text blank [] s = s
add_all float_text blank (t ∷ ts) s = add_all float_text blank ts (add_node float_text blank t s)

add_all-Holds :
    (float_text : Text → ℤ → Text) (blank : ClusterNode) (a : ℤ) (m : ℕ) (ts : List ClusterNodeType)
    (s : ClusterCreatorStore)
    → m + masters_in ts ≤ 5
    → Holds a m s.cluster.nodes
    → IsDistinct (add_all float_text blank ts s).cluster.nodes
unfolding add_node
add_all-Holds float_text blank a m [] s few h = h.1
add_all-Holds float_text blank a m (master ∷ ts) s few h =
    add_all-Holds float_text blank a (m + 1) ts (add_node float_text blank master s) (omega arith)
      (add_master float_text _ a m s.cluster.nodes (omega arith) h)
add_all-Holds float_text blank a m (worker ∷ ts) s few h =
    add_all-Holds float_text blank a m ts (add_node float_text blank worker s) few
      (add_worker float_text _ a m s.cluster.nodes (omega arith) h)

first-Holds : (first : ClusterNode) → first.node_type ≡ master → Holds first.vm_id 1 (first ∷ [])
first-Holds first type =
    ((((λ _. (omega arith, omega int_laws)), (λ k. absurd (ground arith))), tt), (tt, tt), inl type)

-- Whatever nodes are added to a cluster that has only its first master, masters and workers in any order:
-- as long as there are at most five masters, no two nodes of the cluster have the same id.
pub add_all-IsDistinct :
    (float_text : Text → ℤ → Text) (blank first : ClusterNode) (ts : List ClusterNodeType)
    (s : ClusterCreatorStore)
    → s.cluster.nodes ≡ first ∷ []
    → first.node_type ≡ master
    → masters_in ts ≤ 4
    → IsDistinct (add_all float_text blank ts s).cluster.nodes
add_all-IsDistinct float_text blank first ts s alone type few =
    add_all-Holds float_text blank first.vm_id 1 ts s (omega arith)
      (rw alone (first-Holds first type))
