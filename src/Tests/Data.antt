-- ===== src/Tests/Data.antt =====
-- The nodes, pages and servers that the tests use.
use makoon.Prelude.{true, false, ℕ, ◌+◌, none, some, List, [], ◌∷◌, Text, units}
use makoon.Prelude.Int.{ℤ, pos}
use makoon.Model.{
  HelmApp, ClusterResource, ClusterNode, ClusterNodeType, master, worker, change_resources,
  deployed, Cluster,
}
use makoon.Api.{
  get_cluster_nodes, update_helm_app, save_helm_app, delete_helm_app, apps_status,
  save_cluster_resource, delete_node_from_cluster, add_node_to_cluster, get_cluster,
  generate_default_cluster_configuration, create_cluster, delete_cluster_resource,
}
use makoon.World.{World, Dialog, install, message, axios_error}
use makoon.Async.{Outcome, resolved, rejected}
use makoon.Async.Run.{Server}
use makoon.Creator.{init, initial_project_data}
use makoon.Wizard.{opened}

-- The tests meet no number that is not exact.
abbrev pub no_floats : Text → ℤ → Text
no_floats s step = []

abbrev node_of : ℕ → Text → Text → ClusterNodeType → ClusterNode
node_of id name address t = record {
  vm_id = pos id;
  name = name;
  cores = 2;
  memory = 2048;
  ip_address = address;
  storage_pool = units "local";
  node_type = t;
  lock = none;
}

abbrev pub first_master : ClusterNode
first_master = node_of 100 (units "master-1") (units "10.0.0.9") master

abbrev pub first_worker : ClusterNode
first_worker = node_of 101 (units "worker-1") (units "10.0.0.255") worker

abbrev pub locked_worker : ClusterNode
locked_worker = record first_worker { lock = some change_resources }

abbrev pub two_nodes : List ClusterNode
two_nodes = first_master ∷ first_worker ∷ []

abbrev pub an_app : HelmApp
an_app = record {
  id = some (units "a1");
  chart_name = units "nginx";
  chart_version = none;
  repository = [];
  release_name = units "web";
  namespace = units "default";
  values = none;
  wait = none;
}

abbrev pub a_resource : ClusterResource
a_resource = record { id = units "r1"; name = units "config"; content = units "kind: ConfigMap" }

abbrev pub a_cluster : Cluster
a_cluster = record {
  node = units "pve";
  cluster_name = units "lab";
  os_image = none;
  os_image_storage = none;
  kube_version = none;
  cluster_config = [];
  ssh_key = none;
  node_username = [];
  node_password = [];
  helm_apps = some (an_app ∷ []);
  cluster_resources = some (a_resource ∷ []);
  disk_size = some 10;
  nodes = some (first_master ∷ locked_worker ∷ []);
  network = none;
  status = none;
}

abbrev pub a_dialog : Dialog
a_dialog = record {
  visible = true;
  selected = some (units "a1");
  delete_confirm = false;
  submit_mode = some install;
  last_error = [];
  submitting = true;
}

abbrev pub page : World
page = record {
  application = record { error = message [] };
  indicator = record { loaders = [] };
  creator = record init { cluster = record initial_project_data { nodes = two_nodes } };
  management = record {
    cluster_node_vm_statuses = [];
    cluster_kube_statuses = [];
    helm_apps_status = [];
    cluster = a_cluster;
    stray_node = none;
    logs = [];
  };
  clusters_list = record { clusters = [] };
  wizard = opened;
  dialog = a_dialog;
  browser = record { location = units "/"; local_storage = [] };
  login_form = record { login_error = false; remember_ip = true; remember_username = false };
  choices = record {
    nodes = [];
    storages = [];
    os_image_storages = [];
    networks = [];
    os_images = none;
    kube_versions = none;
    host_ip = [];
    step_instance = 0;
    dialog_instance = 0;
    menu_instance = 0;
  };
}

-- The answer of a server that refuses.
abbrev pub refusal : {A : Type 0} → Outcome A
refusal = rejected (axios_error (some 500) none)

-- A server that counts the requests and refuses them.
abbrev pub refusing : Server ℕ
refusing r n = (refusal, n + 1)

-- A server that counts the requests and agrees to some.
abbrev pub agreeing : Server ℕ
agreeing (get_cluster name) n = (resolved a_cluster, n + 1)
agreeing (get_cluster_nodes name) n = (resolved two_nodes, n + 1)
agreeing (save_helm_app name app) n = (resolved (units "a2"), n + 1)
agreeing (save_cluster_resource name cks) n = (resolved (units "r2"), n + 1)
agreeing (apps_status name) n =
    (resolved (record { id = units "a1"; status = deployed } ∷ []), n + 1)
agreeing (delete_helm_app name id) n = (resolved (record {}), n + 1)
agreeing (delete_cluster_resource name id) n = (resolved (record {}), n + 1)
agreeing (add_node_to_cluster name node) n = (resolved node, n + 1)
agreeing (delete_node_from_cluster name node) n = (resolved locked_worker, n + 1)
agreeing (create_cluster c) n = (resolved (record {}), n + 1)
agreeing generate_default_cluster_configuration n =
    (resolved (record initial_project_data { nodes = two_nodes }), n + 1)
agreeing _ n = (refusal, n + 1)

-- A server that agrees, but not to an installation.
abbrev pub partial : Server ℕ
partial (update_helm_app name app) n = (resolved (record {}), n + 1)
partial (apps_status name) n =
    (resolved (record { id = units "a1"; status = deployed } ∷ []), n + 1)
partial _ n = (refusal, n + 1)

-- A server that has a cluster of every name.
abbrev pub naming : Server ℕ
naming (get_cluster name) n = (resolved (record a_cluster { cluster_name = name }), n + 1)
naming (get_cluster_nodes name) n = (resolved two_nodes, n + 1)
naming _ n = (refusal, n + 1)
