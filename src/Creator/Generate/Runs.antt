-- ===== src/Creator/Generate/Runs.antt =====
-- Runs of the asynchronous methods of web/src-web/src/store/cluster-creator-store.ts.
use makoon.Prelude.{◌≡◌, arith, refl, List, [], ◌∷◌, All, ◌==◌, ==_iff}
use makoon.Js.Array.{filter, sort}
use makoon.Js.Array.Search.{filter-All_test, All-filter}
use makoon.Js.Array.Sorting.{IsSorted, All-imp, All-sort, sort-All}
use makoon.Model.{ClusterNode, master, ClusterRequest}
use makoon.Model.Names.{node_type_eq}
use makoon.Nodes.Fresh.{UpTo, sort-vm_id_asc-IsSorted}
use makoon.Api.{generate_default_cluster_configuration}
use makoon.World.{World}
use makoon.Async.{Outcome, resolved, rejected}
use makoon.Async.Run.{Server, run, Settles, Settles-call, after_call, done}
use makoon.Creator.{vm_id_asc}
use makoon.Creator.Generate.{
  processing_indicator_generate_default_cluster, generated, generate_default_cluster,
  default_master_of, first_or, fallback_master,
}

-- What the wizard does with the answer to its request for a default cluster.
abbrev pub after_generate : Outcome ClusterRequest → World → World
after_generate (resolved cluster) w = generated cluster w
after_generate (rejected e) w = w

-- `generateDefaultCluster` takes over the answer of the server, or leaves the wizard's cluster as it
-- is and fails with the server's error; its indicator is off afterwards, and the error is stored.
pub generate_default_cluster-Settles :
    {S : Type 0} (serve : Server S) (w : World) (s s' : S) (o : Outcome ClusterRequest)
    → serve generate_default_cluster_configuration s ≡ (o, s')
    → Settles serve generate_default_cluster w s
        (done o)
        (after_generate o (after_call processing_indicator_generate_default_cluster o w))
        s'
unfolding generate_default_cluster run
generate_default_cluster-Settles serve w s s' (resolved cluster) e k = rw (
    Settles-call serve generate_default_cluster_configuration
      processing_indicator_generate_default_cluster w s (resolved cluster) s' e)
generate_default_cluster-Settles serve w s s' (rejected f) e k = rw (
    Settles-call serve generate_default_cluster_configuration
      processing_indicator_generate_default_cluster w s (rejected f) s' e)

head_first :
    (d : ClusterNode) (xs : List ClusterNode) → IsSorted UpTo xs → All (UpTo (first_or d xs)) xs
head_first d [] _ = tt
head_first d (x ∷ xs) (h, _) = (omega arith, h)

head_All :
    (P : ClusterNode → Type 0) (d : ClusterNode) (xs : List ClusterNode)
    → P d
    → All P xs
    → P (first_or d xs)
head_All P d [] p _ = p
head_All P d (x ∷ xs) p (h, _) = h

-- The default master is a master, and none of the generated masters has a smaller id.
pub default_master_of_least :
    (cluster : ClusterRequest)
    → ((default_master_of cluster).node_type ≡ master)
      × All (λ e. e.node_type ≡ master → UpTo (default_master_of cluster) e) cluster.nodes
unfolding default_master_of
default_master_of_least cluster =
    let is_master = λ (e : ClusterNode). e.node_type == master in
    let masters = filter is_master cluster.nodes in
    (
      head_All (λ e. e.node_type ≡ master) fallback_master (sort vm_id_asc masters) refl
          (sort-All _ vm_id_asc masters (
            All-imp masters (λ x h. (==_iff x.node_type master).0 h)
              (filter-All_test is_master cluster.nodes))),
      All-imp cluster.nodes (λ x h e. h ((==_iff x.node_type master).1 e))
          (All-filter _ is_master cluster.nodes (
            All-sort _ vm_id_asc masters (
              head_first fallback_master (sort vm_id_asc masters)
                (sort-vm_id_asc-IsSorted masters)))),
    )
