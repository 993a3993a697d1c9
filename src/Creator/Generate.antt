-- ===== src/Creator/Generate.antt =====
-- The asynchronous methods of web/src-web/src/store/cluster-creator-store.ts.
pub mod Runs
use makoon.Prelude.{ℕ, Option, none, some, List, [], ◌∷◌, Text, units, ◌==◌}
use makoon.Prelude.Int.{pos}
use makoon.Js.Array.{filter, sort}
use makoon.Model.{ClusterNode, master, ClusterRequest}
use makoon.Model.Names.{node_type_eq}
use makoon.Api.{create_cluster, generate_default_cluster_configuration}
use makoon.World.{World}
use makoon.Async.{Async, modify, request, ◌>>=◌}
use makoon.Async.Call.{api_call}
use makoon.Creator.{vm_id_asc}

abbrev pub processing_indicator_generate_default_cluster : Text
processing_indicator_generate_default_cluster =
    units "PROCESSING_INDICATOR_GENERATE_DEFAULT_CLUSTER"

unfoldable pub provision_cluster : Text → ClusterRequest → Async (Unit {0})
provision_cluster key pr = api_call (request (create_cluster pr)) key

abbrev pub fallback_master : ClusterNode
fallback_master = record {
  vm_id = pos 999;
  cores = 2;
  memory = 2048;
  name = units "master-1";
  storage_pool = [];
  ip_address = [];
  node_type = master;
  lock = none;
}

abbrev first_or : ClusterNode → List ClusterNode → ClusterNode
first_or d [] = d
first_or d (n ∷ _) = n

unfoldable pub default_master_of : ClusterRequest → ClusterNode
default_master_of cluster =
    first_or fallback_master (sort vm_id_asc (filter (λ e. e.node_type == master) cluster.nodes))

abbrev pub generated : ClusterRequest → World → World
generated cluster w = record w {
  creator = record { cluster = cluster; default_master_node = some (default_master_of cluster) };
}

unfoldable pub generate_default_cluster : Async (Unit {0})
generate_default_cluster = do
  cluster ←
      api_call (request generate_default_cluster_configuration)
        processing_indicator_generate_default_cluster
  modify (generated cluster)
