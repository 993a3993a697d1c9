-- ===== src/Management/Members.antt =====
-- The asynchronous methods of web/src-web/src/store/cluster-management-store.ts on nodes and logs.
pub mod Runs
use makoon.Prelude.{ℕ, Option, none, some, List, get_elem?, Text, text_eq, ◌==◌}
use makoon.Js.Array.{find_index, set_at, push}
use makoon.Model.{ClusterNode, ClusterNodeLock, change_resources}
use makoon.Api.{
  delete_node_from_cluster, change_node_resources, add_node_to_cluster, clear_logs_for_cluster,
}
use makoon.World.{World, ClusterManagementStore}
use makoon.Async.{Async, pure, gets, request, ◌>>=◌, ◌>>◌}
use makoon.Management.Actions.{run_in_action, cluster_name_of, defined, set_nodes}

abbrev pub index_of_name : Text → List ClusterNode → Option ℕ
index_of_name node_name nodes = find_index (λ e. e.name == node_name) nodes

-- `nodes[index] = node`: at index -1 the property "-1" of the array is written.
abbrev pub put_node :
    Option ℕ → ClusterNode → List ClusterNode → ClusterManagementStore → ClusterManagementStore
put_node none node nodes m = record m { stray_node = some node }
put_node (some i) node nodes m = set_nodes (set_at (some i) node nodes) m

-- `nodes[index]`.
abbrev pub node_at : Option ℕ → List ClusterNode → ClusterManagementStore → Option ClusterNode
node_at none nodes m = m.stray_node
node_at (some i) nodes m = get_elem? nodes i

unfoldable pub delete_node_from_cluster_by_name : Text → Async (Unit {0})
delete_node_from_cluster_by_name node_name = do
  name ← gets cluster_name_of
  deleted_node ← request (delete_node_from_cluster name node_name)
  found ← gets (λ w. w.management.cluster.nodes)
  nodes ← defined found
  run_in_action (put_node (index_of_name node_name nodes) deleted_node nodes)

-- `.lock = …` on the node that was found, and the request.
abbrev pub lock_and_ask : Text → ℕ → ℕ → List ClusterNode → ClusterNode → Async (Unit {0})
lock_and_ask node_name cores memory nodes node = do
  run_in_action (
      put_node (index_of_name node_name nodes) (record node { lock = some change_resources }) nodes)
  name ← gets cluster_name_of
  request (change_node_resources name node_name (record { cores = cores; memory = memory }))

-- Without a node at the index, `.lock = …` throws.
abbrev pub lock_found : Text → ℕ → ℕ → List ClusterNode → Async (Unit {0})
lock_found node_name cores memory nodes = do
  at_index ← gets (λ w. node_at (index_of_name node_name nodes) nodes w.management)
  node ← defined at_index
  lock_and_ask node_name cores memory nodes node

unfoldable pub change_resources_of_node : Text → ℕ → ℕ → Async (Unit {0})
change_resources_of_node node_name cores memory = do
  found ← gets (λ w. w.management.cluster.nodes)
  nodes ← defined found
  lock_found node_name cores memory nodes

unfoldable pub add_node : ClusterNode → Async (Unit {0})
add_node node = do
  name ← gets cluster_name_of
  added_node ← request (add_node_to_cluster name node)
  found ← gets (λ w. w.management.cluster.nodes)
  nodes ← defined found
  run_in_action (set_nodes (push nodes added_node))

unfoldable pub clear_logs : Async (Unit {0})
clear_logs = do
  name ← gets cluster_name_of
  request (clear_logs_for_cluster name)
  run_in_action (λ m. record m { logs = List.[] })
