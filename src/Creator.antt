-- ===== src/Creator.antt =====
-- web/src-web/src/store/cluster-creator-store.ts: the cluster that the wizard puts together.
pub mod Settings
pub mod Members
pub mod Distinct
pub mod Adding
pub mod Generate
use makoon.Prelude.{ℕ, Bool, not, Option, none, some, List, [], ◌∷◌, Text, text_eq, int_eq, ◌==◌}
use makoon.Prelude.Int.{ℤ, pos, ◌-ℤ◌}
use makoon.Js.Array.{find, find_index, filter, set_at, push, sort}
use makoon.Model.{
  HelmApp, ClusterResource, ClusterNode, ClusterNodeType, master, worker, Network, KeyPair,
  ClusterRequest,
}
use makoon.Model.Names.{node_type_eq}
use makoon.Nodes.{generate_node}
use makoon.World.{ClusterCreatorStore}

abbrev pub vm_id_asc : ClusterNode → ClusterNode → ℤ
vm_id_asc a b = a.vm_id -ℤ b.vm_id

abbrev pub initial_project_data : ClusterRequest
initial_project_data = record {
  os_image = [];
  os_image_storage = [];
  kube_version = [];
  node = [];
  cluster_name = [];
  ssh_key = record { private_key = []; public_key = [] };
  node_username = [];
  node_password = [];
  helm_apps = [];
  cluster_resources = [];
  disk_size = 0;
  nodes = [];
  network = record { gateway = []; subnet_mask = 0; dns = []; bridge = [] };
}

abbrev pub init : ClusterCreatorStore
init = record { cluster = initial_project_data; default_master_node = none }

pub record SettingsModel : Type 0 where
  pub node : Text
  pub os_image : Text
  pub os_image_storage : Text
  pub kube_version : Text

pub record ClusterSettingsModel : Type 0 where
  pub cluster_name : Text
  pub node_username : Text
  pub node_password : Text
  pub network : Network
  pub disk_size : ℕ

abbrev on_cluster : (ClusterRequest → ClusterRequest) → ClusterCreatorStore → ClusterCreatorStore
on_cluster f s = record s { cluster = f s.cluster }

unfoldable pub add_helm_app : HelmApp → ClusterCreatorStore → ClusterCreatorStore
add_helm_app app = on_cluster (λ c. record c { helm_apps = push c.helm_apps app })

unfoldable pub update_cluster_settings :
    ClusterSettingsModel → ClusterCreatorStore → ClusterCreatorStore
update_cluster_settings values = on_cluster (λ c. record c {
  cluster_name = values.cluster_name;
  node_username = values.node_username;
  node_password = values.node_password;
  disk_size = values.disk_size;
  network = record {
    bridge = values.network.bridge;
    gateway = values.network.gateway;
    dns = values.network.dns;
    subnet_mask = values.network.subnet_mask;
  };
})

unfoldable pub update_settings : SettingsModel → ClusterCreatorStore → ClusterCreatorStore
update_settings values = on_cluster (λ c. record c {
  node = values.node;
  os_image = values.os_image;
  os_image_storage = values.os_image_storage;
  kube_version = values.kube_version;
})

-- The node that stands for `{}` before the default cluster is there is given by the caller.
abbrev default_or : ClusterNode → Option ClusterNode → ClusterNode
default_or d none = d
default_or d (some n) = n

unfoldable pub add_node :
    (Text → ℤ → Text) → ClusterNode → ClusterNodeType → ClusterCreatorStore → ClusterCreatorStore
add_node float_text blank node_type s =
    on_cluster
      (λ c. record c {
        nodes =
            push c.nodes
              (generate_node float_text c.nodes node_type (default_or blank s.default_master_node));
      })
      s

abbrev pub has_id : ℤ → ClusterNode → Bool
has_id id e = e.vm_id == id

unfoldable pub update_node : ℤ → ClusterNode → ClusterCreatorStore → ClusterCreatorStore
update_node id new_node =
    on_cluster (λ c. record c { nodes = set_at (find_index (has_id id) c.nodes) new_node c.nodes })

unfoldable pub delete_node : ℤ → ClusterCreatorStore → ClusterCreatorStore
delete_node vm_id =
    on_cluster (λ c. record c { nodes = filter (λ e. not (has_id vm_id e)) c.nodes })

abbrev pub has_release : Text → HelmApp → Bool
has_release release_name e = e.release_name == release_name

unfoldable pub delete_helm_app : Text → ClusterCreatorStore → ClusterCreatorStore
delete_helm_app release_name =
    on_cluster
      (λ c. record c { helm_apps = filter (λ e. not (has_release release_name e)) c.helm_apps })

unfoldable pub update_helm_app : Text → HelmApp → ClusterCreatorStore → ClusterCreatorStore
update_helm_app release_name new_app = on_cluster (λ c. record c {
  helm_apps = set_at (find_index (has_release release_name) c.helm_apps) new_app c.helm_apps;
})

unfoldable pub add_custom_k8s_resources :
    ClusterResource → ClusterCreatorStore → ClusterCreatorStore
add_custom_k8s_resources cks =
    on_cluster (λ c. record c { cluster_resources = push c.cluster_resources cks })

abbrev pub has_name : Text → ClusterResource → Bool
has_name name e = e.name == name

unfoldable pub update_custom_k8s_resources :
    Text → ClusterResource → ClusterCreatorStore → ClusterCreatorStore
update_custom_k8s_resources old_name new_ckr = on_cluster (λ c. record c {
  cluster_resources =
      set_at (find_index (has_name old_name) c.cluster_resources) new_ckr c.cluster_resources;
})

unfoldable pub delete_custom_k8s_resources : Text → ClusterCreatorStore → ClusterCreatorStore
delete_custom_k8s_resources name =
    on_cluster (λ c. record c {
      cluster_resources = filter (λ e. not (has_name name e)) c.cluster_resources;
    })

unfoldable pub find_node : ℤ → ClusterCreatorStore → Option ClusterNode
find_node id s = find (has_id id) s.cluster.nodes

-- `clusterName || ""` is the name itself, blank or not.
unfoldable pub cluster_settings : ClusterCreatorStore → ClusterSettingsModel
cluster_settings s = record {
  cluster_name = s.cluster.cluster_name;
  node_username = s.cluster.node_username;
  node_password = s.cluster.node_password;
  disk_size = s.cluster.disk_size;
  network = record {
    bridge = s.cluster.network.bridge;
    dns = s.cluster.network.dns;
    gateway = s.cluster.network.gateway;
    subnet_mask = s.cluster.network.subnet_mask;
  };
}

unfoldable pub settings : ClusterCreatorStore → SettingsModel
settings s = record {
  node = s.cluster.node;
  os_image = s.cluster.os_image;
  os_image_storage = s.cluster.os_image_storage;
  kube_version = s.cluster.kube_version;
}

unfoldable pub nodes_of_type : ClusterNodeType → ClusterCreatorStore → List ClusterNode
nodes_of_type t s = sort vm_id_asc (filter (λ e. e.node_type == t) s.cluster.nodes)

abbrev pub master_nodes : ClusterCreatorStore → List ClusterNode
master_nodes = nodes_of_type master

abbrev pub worker_nodes : ClusterCreatorStore → List ClusterNode
worker_nodes = nodes_of_type worker
