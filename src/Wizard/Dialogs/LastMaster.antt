-- ===== src/Wizard/Dialogs/LastMaster.antt =====
-- What `canBeDeleted` of CreatorNodeDialog.tsx protects.
use mathlib.Core.Path.{subst}
use makoon.Prelude.{
  ℕ, ◌+◌, ◌≤◌, ◌≡◌, refl, inl, inr, Bool, true, not, Option-cases, none, some, List, [], ◌∷◌,
  length, ltb, arith, nat_eq, int_eq, ◌==◌, if◌then◌else◌,
}
use makoon.Prelude.Int.{ℤ}
use makoon.Js.Array.{find, filter}
use makoon.Js.Array.Sorting.{length-sort}
use makoon.Model.{ClusterNode, master}
use makoon.Model.Names.{node_type_eq}
use makoon.World.{ClusterCreatorStore}
use makoon.Creator.{vm_id_asc, has_id, find_node, delete_node, nodes_of_type, master_nodes}
use makoon.Wizard.Dialogs.{is_master, can_be_deleted}

module _ {A : Type 0} (p q : A → Bool) where
  length-filter_split :
      (xs : List A)
      → length (filter p xs)
        ≡ length (filter p (filter (λ x. not (q x)) xs)) + length (filter p (filter q xs))
  unfolding filter
  length-filter_split [] = refl
  length-filter_split (x ∷ xs) = ground (arith, length-filter_split xs)

empty : {A : Type 0} (xs : List A) → length xs ≤ 0 → xs ≡ []
empty [] h = refl
empty (x ∷ xs) h = absurd (omega arith)

-- What a search finds is the only element that passes the test, if there is at most one.
find-filter_one :
    {A : Type 0} (q : A → Bool) (xs : List A) (x : A)
    → find q xs ≡ some x
    → length (filter q xs) ≤ 1
    → filter q xs ≡ x ∷ []
unfolding find filter
find-filter_one q [] x e h = absurd (cc e)
find-filter_one q (y ∷ ys) x e h = ground (arith, empty (filter q ys), find-filter_one q ys x)

filter_missing : {A : Type 0} (q : A → Bool) (xs : List A) → find q xs ≡ none → filter q xs ≡ []
unfolding find filter
filter_missing q [] e = refl
filter_missing q (y ∷ ys) e = ground (arith, filter_missing q ys)

module _ {A : Type 0} (p q : A → Bool) (xs : List A) where
  count_none : find q xs ≡ none → length (filter p (filter q xs)) ≡ 0
  unfolding filter
  count_none e = rw (filter_missing q xs e) refl

  count_one :
      (x : A)
      → find q xs ≡ some x
      → length (filter q xs) ≤ 1
      → length (filter p (filter q xs)) ≡ (if p x then 1 else 0)
  unfolding filter
  count_one x e h = rw (find-filter_one q xs x e h) (ground arith)

enough :
    (b : Bool) (n : ℕ) → 1 ≤ n → (if b then ltb 1 n else true) ≡ true → (if b then 1 else 0) + 1 ≤ n
enough b n h e = ground arith

abbrev is_master_node : ClusterNode → Bool
is_master_node e = e.node_type == master

masters_left :
    (id : ℤ) (s : ClusterCreatorStore)
    → length (master_nodes s)
      ≡ length (master_nodes (delete_node id s))
        + length (filter is_master_node (filter (has_id id) s.cluster.nodes))
unfolding nodes_of_type delete_node
masters_left id s =
    rw (length-sort vm_id_asc _, length-sort vm_id_asc _)
      (length-filter_split is_master_node (has_id id) s.cluster.nodes)

-- Where the dialog offers to delete a node, and no two nodes share its id, the cluster keeps a
-- master after the deletion if it had one.
pub can_be_deleted-delete_node :
    (id : ℤ) (s : ClusterCreatorStore)
    → can_be_deleted id s ≡ true
    → length (filter (has_id id) s.cluster.nodes) ≤ 1
    → 1 ≤ length (master_nodes s)
    → 1 ≤ length (master_nodes (delete_node id s))
unfolding can_be_deleted find_node
can_be_deleted-delete_node id s can one some_master =
    elim (Option-cases (find (has_id id) s.cluster.nodes)) [
      | inl e ↦
          omega (arith, masters_left id s, count_none is_master_node (has_id id) s.cluster.nodes e)
      | inr (n, e) ↦
          let can_n : (if is_master (some n) then ltb 1 (length (master_nodes s)) else true)
              ≡ true =
            subst (λ o. (if is_master o then ltb 1 (length (master_nodes s)) else true) ≡ true) e
              can in
          omega (
            arith,
            masters_left id s,
            count_one is_master_node (has_id id) s.cluster.nodes n e one,
            enough (is_master_node n) (length (master_nodes s)) some_master can_n,
          )
    ]
