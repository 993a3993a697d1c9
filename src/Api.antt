-- ===== src/Api.antt =====
-- web/src-web/src/api/*.ts: the requests of the front end. A request is a value of its own; `Reply`
-- is the type of what the server answers. Http has the call that `axios` is given.
pub mod Http
use makoon.Prelude.{ℕ, List, [], ◌∷◌, Text, units}
use makoon.Model.{
  HelmApp, ClusterResource, ClusterNode, LogEntry, Cluster, ClusterRequest, ClusterHeader,
  ClusterNodeStatus, AppStatus, LoginRequest, ClusterNodeVmStatus, AvailableStorage,
  AvailableNetwork, ChangeNodeResourcesRequest, AvailableOsImage, AvailableKubeVersion,
}

-- storage.ts
pub data StorageContentType : Type 0 where
  iso images rootdir vztmpl backup snippets : StorageContentType

pub data Request : Type 0 where
  -- clusters.ts
  get_clusters : Request
  get_cluster : Text → Request
  get_cluster_nodes : Text → Request
  delete_cluster : Text → Request
  delete_node_from_cluster : Text → Text → Request
  change_node_resources : Text → Text → ChangeNodeResourcesRequest → Request
  create_cluster : ClusterRequest → Request
  add_node_to_cluster : Text → ClusterNode → Request
  generate_default_cluster_configuration : Request
  logs_for_cluster : Text → Request
  clear_logs_for_cluster : Text → Request
  cluster_node_vms_status : Text → Request
  cluster_kube_status : Text → Request
  -- apps.ts
  apps_status : Text → Request
  save_helm_app : Text → HelmApp → Request
  update_helm_app : Text → HelmApp → Request
  delete_helm_app : Text → Text → Request
  install_helm_app : Text → Text → Request
  uninstall_helm_app : Text → Text → Request
  -- cluster_resources.ts
  save_cluster_resource : Text → ClusterResource → Request
  update_cluster_resource : Text → ClusterResource → Request
  delete_cluster_resource : Text → Text → Request
  install_cluster_resource : Text → Text → Request
  uninstall_cluster_resource : Text → Text → Request
  -- auth.ts, nodes.ts, networks.ts, storage.ts, settings.ts
  get_logged_in_host_ip : Request
  login : LoginRequest → Request
  logout : Request
  nodes : Request
  bridges : Text → Request
  storage : Text → StorageContentType → Request
  os_images : Request
  kube_versions : Request

-- The data of a successful answer. A call whose answer nobody reads has `Unit`; of `login` the
-- status of the answer is kept.
abbrev pub Reply : Request → Type 0
Reply get_clusters = List ClusterHeader
Reply (get_cluster name) = Cluster
Reply (get_cluster_nodes name) = List ClusterNode
Reply (delete_node_from_cluster cluster_name node_name) = ClusterNode
Reply (add_node_to_cluster cluster_name node) = ClusterNode
Reply generate_default_cluster_configuration = ClusterRequest
Reply (logs_for_cluster name) = List LogEntry
Reply (clear_logs_for_cluster name) = List LogEntry
Reply (cluster_node_vms_status cluster_name) = List ClusterNodeVmStatus
Reply (cluster_kube_status cluster_name) = List ClusterNodeStatus
Reply (apps_status cluster_name) = List AppStatus
Reply (save_helm_app cluster_name app) = Text
Reply (save_cluster_resource cluster_name app) = Text
Reply get_logged_in_host_ip = Text
Reply (login req) = ℕ
Reply nodes = List Text
Reply (bridges node) = List AvailableNetwork
Reply (storage node content_type) = List AvailableStorage
Reply os_images = List AvailableOsImage
Reply kube_versions = List AvailableKubeVersion
Reply _ = Unit
