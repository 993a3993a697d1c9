-- ===== src/Management/Actions.antt =====
-- The asynchronous methods of web/src-web/src/store/cluster-management-store.ts that load and poll,
-- and what all its methods share. A method whose call
-- of `apiCall` gives no key takes the random one as its argument `key`.
use makoon.Prelude.{
  Bool, true, false, Option, none, some, List, [], ◌∷◌, foldl, Text, units, text_eq, if◌then◌else◌,
}
use makoon.Model.{HelmApp, ClusterResource, ClusterNode, ClusterNodeLock, Cluster}
use makoon.Api.{
  get_cluster, logs_for_cluster, cluster_node_vms_status, cluster_kube_status, get_cluster_nodes,
  apps_status,
}
use makoon.World.{World, ClusterManagementStore, type_error}
use makoon.Async.{Async, pure, raise, gets, modify, request, ◌>>=◌}
use makoon.Async.Call.{api_call}

abbrev pub loading_indicator_uninstall_helm_chart : Text
loading_indicator_uninstall_helm_chart = units "LOADING_INDICATOR_UNINSTALL_HELM_CHART"

abbrev pub loading_indicator_delete_helm_chart : Text
loading_indicator_delete_helm_chart = units "LOADING_INDICATOR_DELETE_HELM_CHART"

abbrev pub loading_indicator_update_helm_charts_status : Text
loading_indicator_update_helm_charts_status = units "LOADING_INDICATOR_UPDATE_HELM_CHARTS_STATUS"

abbrev pub loading_cluster : Text
loading_cluster = units "LOADING_CLUSTER"

abbrev pub loading_logs : Text
loading_logs = units "LOADING_LOGS"

abbrev pub loading_indicator_install_k8s_resource : Text
loading_indicator_install_k8s_resource = units "LOADING_INDICATOR_INSTALL_K8S_RESOURCE"

abbrev pub loading_indicator_uninstall_k8s_resource : Text
loading_indicator_uninstall_k8s_resource = units "LOADING_INDICATOR_UNINSTALL_K8S_RESOURCE"

abbrev pub loading_indicator_delete_k8s_resource : Text
loading_indicator_delete_k8s_resource = units "LOADING_INDICATOR_DELETE_K8S_RESOURCE"

-- `runInAction` on this store.
abbrev pub run_in_action : (ClusterManagementStore → ClusterManagementStore) → Async (Unit {0})
run_in_action f = modify (λ w. record w { management = f w.management })

abbrev pub cluster_name_of : World → Text
cluster_name_of w = w.management.cluster.cluster_name

-- Whether a text is falsy.
abbrev pub is_blank : Text → Bool
is_blank [] = true
is_blank (c ∷ s) = false

-- Whether a node is locked.
abbrev pub is_locked : ClusterNode → Bool
is_locked n = elim n.lock [ none ↦ false | some _ ↦ true ]

-- A value that the code reads a property of: undefined throws.
abbrev pub defined : {A : Type 0} → Option A → Async A
defined none = raise type_error
defined (some a) = pure a

abbrev pub set_cluster : (Cluster → Cluster) → ClusterManagementStore → ClusterManagementStore
set_cluster f m = record m { cluster = f m.cluster }

abbrev pub set_helm_apps : List HelmApp → ClusterManagementStore → ClusterManagementStore
set_helm_apps apps = set_cluster (λ c. record c { helm_apps = some apps })

abbrev pub set_resources : List ClusterResource → ClusterManagementStore → ClusterManagementStore
set_resources rs = set_cluster (λ c. record c { cluster_resources = some rs })

abbrev pub set_nodes : List ClusterNode → ClusterManagementStore → ClusterManagementStore
set_nodes nodes = set_cluster (λ c. record c { nodes = some nodes })

-- A loaded cluster is a new object with a new array of nodes.
abbrev pub loaded : Cluster → ClusterManagementStore → ClusterManagementStore
loaded cluster m = record m {
  cluster = cluster;
  cluster_node_vm_statuses = [];
  cluster_kube_statuses = [];
  stray_node = none;
}

unfoldable pub load_project : Text → Async (Unit {0})
load_project cluster_name = do
  cluster ← api_call (request (get_cluster cluster_name)) loading_cluster
  run_in_action (loaded cluster)

unfoldable pub load_logs : Text → Async (Unit {0})
load_logs cluster_name = do
  logs ← api_call (request (logs_for_cluster cluster_name)) loading_logs
  run_in_action (λ m. record m { logs = logs })

abbrev pub when_named : (Text → Async (Unit {0})) → Async (Unit {0})
when_named body = do name ← gets cluster_name_of; if is_blank name then pure tt else body name

unfoldable pub update_cluster_node_vm_statuses : Text → Async (Unit {0})
update_cluster_node_vm_statuses key = when_named λ _. do
  statuses ← api_call (do name ← gets cluster_name_of; request (cluster_node_vms_status name)) key
  run_in_action (λ m. record m { cluster_node_vm_statuses = statuses })

unfoldable pub update_cluster_kube_statuses : Text → Async (Unit {0})
update_cluster_kube_statuses key = when_named λ _. do
  statuses ← api_call (do name ← gets cluster_name_of; request (cluster_kube_status name)) key
  run_in_action (λ m. record m { cluster_kube_statuses = statuses })

-- `a || b`.
abbrev or_lock : Option ClusterNodeLock → Option ClusterNodeLock → Option ClusterNodeLock
or_lock none b = b
or_lock (some a) b = some a

-- The rest of the `reduce`, from an accumulated lock on.
unfoldable pub reduce_locks : Option ClusterNodeLock → List ClusterNode → Option ClusterNodeLock
reduce_locks acc ns = foldl (λ a e. or_lock a e.lock) acc ns

-- `nodes.map(i => i.lock).reduce((a, b) => a || b)`, which throws on an empty array.
unfoldable pub any_lock : List ClusterNode → Async (Option ClusterNodeLock)
any_lock [] = raise type_error
any_lock (n ∷ ns) = pure (reduce_locks n.lock ns)

-- A new array of nodes has no property "-1".
abbrev pub set_fresh_nodes : List ClusterNode → ClusterManagementStore → ClusterManagementStore
set_fresh_nodes fresh m = record (set_nodes fresh m) { stray_node = none }

abbrev pub fetch_nodes : Text → Async (Unit {0})
fetch_nodes key = do
  fresh ← api_call (do name ← gets cluster_name_of; request (get_cluster_nodes name)) key
  run_in_action (set_fresh_nodes fresh)

abbrev pub fetch_if_locked : Text → List ClusterNode → Async (Unit {0})
fetch_if_locked key list = do
  lock ← any_lock list
  elim lock [ none ↦ pure tt | some _ ↦ fetch_nodes key ]

unfoldable pub update_nodes_if_there_is_any_lock : Text → Async (Unit {0})
unfolding any_lock
update_nodes_if_there_is_any_lock key = when_named λ _. do
  nodes ← gets (λ w. w.management.cluster.nodes)
  list ← defined nodes
  fetch_if_locked key list

unfoldable pub update_apps_status : Async (Unit {0})
update_apps_status = when_named λ _. do
  result ←
      api_call (do name ← gets cluster_name_of; request (apps_status name))
        loading_indicator_update_helm_charts_status
  run_in_action (λ m. record m { helm_apps_status = result })
