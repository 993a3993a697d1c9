-- ===== src/ClustersList.antt =====
-- web/src-web/src/store/clusters-list-store.ts
use makoon.Prelude.{ℕ, ◌+◌, foldl, Text, units}
use makoon.Api.{get_clusters}
use makoon.World.{ClustersListStore}
use makoon.Async.{Async, modify, request, ◌>>=◌}
use makoon.Async.Call.{api_call}

abbrev pub loading_indicator_load_clusters : Text
loading_indicator_load_clusters = units "LOADING_INDICATOR_LOAD_CLUSTERS"

unfoldable pub load_clusters : Async (Unit {0})
load_clusters = do
  clusters ← api_call (request get_clusters) loading_indicator_load_clusters
  modify (λ w. record w { clusters_list = record { clusters = clusters } })

unfoldable pub cpu_sum : ClustersListStore → ℕ
cpu_sum s = foldl (λ acc i. acc + i.cores_sum) 0 s.clusters

unfoldable pub ram_sum : ClustersListStore → ℕ
ram_sum s = foldl (λ acc i. acc + i.memory_sum) 0 s.clusters

unfoldable pub disks_size_sum : ClustersListStore → ℕ
disks_size_sum s = foldl (λ acc i. acc + i.disk_size_sum) 0 s.clusters
