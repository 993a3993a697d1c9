-- ===== src/Management/Tables.antt =====
-- The tables and totals that the page of the open cluster shows, against its nodes.
use native.Mathlib.Nat.{ℕ_set}
use mathlib.Core.List.{Perm, foldr, map-append, map-map}
use mathlib.Core.List.Perm
use makoon.Prelude.{
  ℕ, ◌+◌, ◌≡◌, ◌∙◌, refl, sym, ap, arith, List, [], ◌∷◌, ◌++◌, map, foldl, some, ◌==◌,
}
use makoon.Js.Array.{sort, filter}
use makoon.Js.Array.Sorting.{sort-perm}
use makoon.Model.{ClusterNode, ClusterNodeType, master, worker}
use makoon.Model.Names.{node_type_eq}
use makoon.World.{ClusterManagementStore}
use makoon.Creator.Members.{filters-perm}
use makoon.Management.{
  vm_id_asc, NodeWithStatus, with_status, nodes_with_status, master_nodes_with_status,
  worker_nodes_with_status, or_empty, cpu_sum, ram_sum,
}

module _ {ℓ} {A : Type ℓ} (f : A → ℕ) where
  -- The sum of a field over a list.
  abbrev pub total : List A → ℕ
  total [] = 0
  total (x ∷ xs) = f x + total xs

  foldl-total : (n : ℕ) (xs : List A) → foldl (λ acc i. acc + f i) n xs ≡ n + total xs
  foldl-total n [] = omega arith
  foldl-total n (x ∷ xs) = omega (arith, foldl-total (n + f x) xs)

  total-append : (xs ys : List A) → total (xs ++ ys) ≡ total xs + total ys
  total-append [] ys = omega arith
  total-append (x ∷ xs) ys = omega (arith, total-append xs ys)

  total-foldr : (xs : List A) → total xs ≡ foldr (λ x n. f x + n) 0 xs
  total-foldr [] = refl
  total-foldr (x ∷ xs) = ap (λ n. f x + n) (total-foldr xs)

  total-perm : {xs ys : List A} → Perm xs ys → total xs ≡ total ys
  total-perm {xs} {ys} p =
      total-foldr xs
      ∙ Perm.foldr-eq ℕ_set (λ x n. f x + n) (λ a b n. omega arith) p 0
      ∙ sym (total-foldr ys)

total-map :
    {A B : Type 0} (f : B → ℕ) (g : A → B) (xs : List A)
    → total f (map g xs) ≡ total (λ x. f (g x)) xs
total-map f g [] = refl
total-map f g (x ∷ xs) = ap (λ n. f (g x) + n) (total-map f g xs)

map_same : {A : Type 0} (xs : List A) → map (λ x. x) xs ≡ xs
map_same [] = refl
map_same (x ∷ xs) = ap (◌∷◌ x) (map_same xs)

module _ (s : ClusterManagementStore) (nodes : List ClusterNode)
    (loaded : s.cluster.nodes ≡ some nodes) where
  -- The nodes of a table, without their statuses.
  nodes_of_table :
      (t : ClusterNodeType)
      → map (λ (r : NodeWithStatus). r.node) (nodes_with_status s t)
        ≡ sort vm_id_asc (filter (λ e. e.node_type == t) nodes)
  unfolding nodes_with_status with_status
  nodes_of_table t = rw loaded (
      map-map (λ (r : NodeWithStatus). r.node) (with_status s)
        (sort vm_id_asc (filter (λ e. e.node_type == t) nodes))
      ∙ map_same (sort vm_id_asc (filter (λ e. e.node_type == t) nodes)))

  -- The tables of masters and of workers of the open cluster together show each of its nodes once.
  pub nodes_with_status-perm :
      Perm
        (map
          (λ (r : NodeWithStatus). r.node)
          (master_nodes_with_status s ++ worker_nodes_with_status s))
        nodes
  nodes_with_status-perm =
      rw (map-append (λ (r : NodeWithStatus). r.node), nodes_of_table master, nodes_of_table worker)
        (Perm.trans (Perm.append (sort-perm vm_id_asc _) (sort-perm vm_id_asc _))
          (filters-perm nodes))

  -- A total of a field over the nodes is the sum of that field over the two tables.
  total_tables :
      (f : ClusterNode → ℕ)
      → total f nodes
        ≡ total (λ (r : NodeWithStatus). f r.node) (master_nodes_with_status s)
          + total (λ (r : NodeWithStatus). f r.node) (worker_nodes_with_status s)
  total_tables f =
      sym (total-perm f nodes_with_status-perm)
      ∙ total-map f (λ (r : NodeWithStatus). r.node)
          (master_nodes_with_status s ++ worker_nodes_with_status s)
      ∙ total-append (λ (r : NodeWithStatus). f r.node) (master_nodes_with_status s)
          (worker_nodes_with_status s)

  sum_loaded :
      (f : ClusterNode → ℕ)
      → foldl (λ acc i. acc + f i) 0 (or_empty s.cluster.nodes) ≡ total f nodes
  sum_loaded f =
      ap (λ ns. foldl (λ acc i. acc + f i) 0 (or_empty ns)) loaded
      ∙ omega (arith, foldl-total f 0 nodes)

  -- The totals of cores and of memory that the page of an open cluster shows are the sums over the rows
  -- of its two tables, which together show each node of the cluster once.
  pub cpu_sum-tables :
      (cpu_sum s
        ≡ total (λ (r : NodeWithStatus). r.node.cores) (master_nodes_with_status s)
          + total (λ (r : NodeWithStatus). r.node.cores) (worker_nodes_with_status s))
      × (ram_sum s
          ≡ total (λ (r : NodeWithStatus). r.node.memory) (master_nodes_with_status s)
            + total (λ (r : NodeWithStatus). r.node.memory) (worker_nodes_with_status s))
      × Perm
          (map
            (λ (r : NodeWithStatus). r.node)
            (master_nodes_with_status s ++ worker_nodes_with_status s))
          nodes
  unfolding cpu_sum ram_sum
  cpu_sum-tables = (
    sum_loaded (λ n. n.cores) ∙ total_tables (λ n. n.cores),
    sum_loaded (λ n. n.memory) ∙ total_tables (λ n. n.memory),
    nodes_with_status-perm,
  )
