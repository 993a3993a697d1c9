-- ===== src/Dialogs/NodeDialogs/Locks.antt =====
-- What the button "Delete" of EditNodeDialog.tsx protects.
use mathlib.Core.Path.{subst}
use makoon.Prelude.{
  ℕ, zero, suc, ◌+◌, ◌≤◌, ◌≡◌, inl, inr, Bool, true, false, not, Bool-cases, Option, none, some,
  List, [], ◌∷◌, length, set, Any, Any-imp, arith, ltb, ◌||◌, nat_eq, if◌then◌else◌,
}
use makoon.Js.Array.{filter, set_at}
use makoon.Model.{ClusterNode}
use makoon.World.{ClusterManagementStore}
use makoon.Management.Actions.{is_locked}
use makoon.Dialogs.NodeDialogs.{node_blocked, cannot_delete}

module _ {A : Type 0} (p : A → Bool) where
  length-filter-set :
      (i : ℕ) (y : A) (xs : List A) → length (filter p xs) ≤ length (filter p (set xs i y)) + 1
  unfolding filter
  length-filter-set i y [] = omega arith
  length-filter-set zero y (x ∷ xs) = ground arith
  length-filter-set (suc i) y (x ∷ xs) = ground (arith, length-filter-set i y xs)

  Any-filter : (xs : List A) → 1 ≤ length (filter p xs) → Any (λ x. p x ≡ true) xs
  unfolding filter
  Any-filter [] h = absurd (omega arith)
  Any-filter (x ∷ xs) h = elim (Bool-cases (p x)) [
    | inl e ↦ inl e
    | inr e ↦
        inr
          (Any-filter xs (subst (λ b. 1 ≤ length (if b then x ∷ filter p xs else filter p xs)) e h))
  ]

-- Where the button "Delete" is enabled, a node is left that is not locked, whichever one node is
-- replaced by another, such as the locked node that the server answers with.
pub cannot_delete-set_at :
    (stored : Option ClusterNode) (nodes : List ClusterNode) (m : ClusterManagementStore)
    (i : Option ℕ) (answer : ClusterNode)
    → cannot_delete stored nodes m ≡ false
    → Any (λ e. is_locked e ≡ false) (set_at i answer nodes)
unfolding cannot_delete
cannot_delete-set_at stored nodes m i answer h =
    Any-imp (set_at i answer nodes) (λ x e. ground arith)
      (Any-filter (λ n. not (is_locked n)) (set_at i answer nodes)
        (left i answer nodes (enough nodes (node_blocked stored m) h)))
  where
    enough :
        (ns : List ClusterNode) (b : Bool)
        → (ltb (length (filter (λ n. not (is_locked n)) ns)) 2 || b) ≡ false
        → 2 ≤ length (filter (λ n. not (is_locked n)) ns)
    enough ns b e = ground arith

    left :
        (j : Option ℕ) (y : ClusterNode) (ns : List ClusterNode)
        → 2 ≤ length (filter (λ n. not (is_locked n)) ns)
        → 1 ≤ length (filter (λ n. not (is_locked n)) (set_at j y ns))
    left none y ns e = omega arith
    left (some j) y ns e = omega (arith, length-filter-set (λ n. not (is_locked n)) j y ns)
