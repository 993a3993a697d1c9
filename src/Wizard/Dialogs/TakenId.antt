-- ===== src/Wizard/Dialogs/TakenId.antt =====
-- A node of the wizard that is given the id of another one.
use makoon.Prelude.{
  ◌≡◌, ◌≢◌, ◌∙◌, refl, arith, Bool, false, Bool-cases, Option-cases, inl, inr, none, some, List, [],
  ◌∷◌, ◌==◌, ==_iff, ==_refl, int_eq,
}
use makoon.Prelude.Int.{ℤ}
use makoon.Js.Array.{find, find_index, filter, set_at}
use makoon.Model.{ClusterNode}
use makoon.World.{ClusterCreatorStore}
use makoon.Creator.{has_id, find_node, update_node, delete_node}
use makoon.Creator.Members.{find_node-delete_node}

module _ {ℓ} {A : Type ℓ} (p : A → Bool) where
  find_nothing : (xs : List A) → filter p xs ≡ [] → find p xs ≡ none
  unfolding find filter
  find_nothing [] h = refl
  find_nothing (x ∷ xs) h = ground (arith, find_nothing xs)

  -- A write over the only element that passes the test, by one that does not.
  find-set_at_only :
      (v x : A) (xs : List A)
      → p v ≡ false
      → filter p xs ≡ x ∷ []
      → find p (set_at (find_index p xs) v xs) ≡ none
  unfolding find find_index filter
  find-set_at_only v x [] pv only = refl
  find-set_at_only v x (y ∷ ys) pv only = elim (Bool-cases (p y)) [
    | inl e ↦ rw e (ground (arith, find_nothing ys))
    | inr e ↦ elim (Option-cases (find_index p ys)) [
      | inl e1 ↦ ground (arith, find-set_at_only v x ys pv)
      | inr (i, e1) ↦ ground (arith, find-set_at_only v x ys pv)
    ]
  ]

-- Nothing in the wizard asks whether an id is free. The only node with the id `a` is given the id `b` of
-- another node, and `b` is deleted: before that `b` finds a node, and afterwards neither id finds one, so
-- both nodes are lost.
pub delete_node-update_node :
    (a b : ℤ) (x y new : ClusterNode) (s : ClusterCreatorStore)
    → (a == b) ≡ false
    → filter (has_id a) s.cluster.nodes ≡ x ∷ []
    → find_node b s ≡ some y
    → new.vm_id ≡ b
    → let t = delete_node b (update_node a new s) in
      (find_node b s ≢ none) × (find_node a t ≡ none) × (find_node b t ≡ none)
unfolding update_node find_node
delete_node-update_node a b x y new s ne only other taken =
    let t = update_node a new s in
    let other_id : has_id a new ≡ false = ground (arith, ==_iff a b, ==_iff new.vm_id a) in
    let gone : find_node a t ≡ none =
      find-set_at_only (has_id a) new x s.cluster.nodes other_id only in
    (
      λ e. cc,
      find_node-delete_node b a t ∙ ground (arith, ==_iff b a, ==_iff a b),
      find_node-delete_node b b t ∙ ground (arith, ==_refl b),
    )
