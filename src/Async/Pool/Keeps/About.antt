-- ===== src/Async/Pool/Keeps/About.antt =====
-- Which cluster a request is about, and what of the page is beside the open cluster.
use makoon.Prelude.{◌≡◌, Text}
use makoon.Api.{
  Request, get_cluster_nodes, delete_node_from_cluster, change_node_resources, add_node_to_cluster,
  logs_for_cluster, clear_logs_for_cluster, cluster_node_vms_status, cluster_kube_status,
  apps_status, save_helm_app, update_helm_app, delete_helm_app, install_helm_app,
  uninstall_helm_app, save_cluster_resource, update_cluster_resource, delete_cluster_resource,
  install_cluster_resource, uninstall_cluster_resource,
}
use makoon.World.{
  World, ClusterCreatorStore, ClustersListStore, Wizard, Dialog, Browser, LoginForm, Choices,
}

-- Whether a request is about the cluster with a name.
abbrev pub IsAbout : Text → Request → Type 0
IsAbout n (get_cluster_nodes name) = name ≡ n
IsAbout n (delete_node_from_cluster name node_name) = name ≡ n
IsAbout n (change_node_resources name node_name req) = name ≡ n
IsAbout n (add_node_to_cluster name node) = name ≡ n
IsAbout n (logs_for_cluster name) = name ≡ n
IsAbout n (clear_logs_for_cluster name) = name ≡ n
IsAbout n (cluster_node_vms_status name) = name ≡ n
IsAbout n (cluster_kube_status name) = name ≡ n
IsAbout n (apps_status name) = name ≡ n
IsAbout n (save_helm_app name app) = name ≡ n
IsAbout n (update_helm_app name app) = name ≡ n
IsAbout n (delete_helm_app name id) = name ≡ n
IsAbout n (install_helm_app name id) = name ≡ n
IsAbout n (uninstall_helm_app name id) = name ≡ n
IsAbout n (save_cluster_resource name cks) = name ≡ n
IsAbout n (update_cluster_resource name cks) = name ≡ n
IsAbout n (delete_cluster_resource name id) = name ≡ n
IsAbout n (install_cluster_resource name id) = name ≡ n
IsAbout n (uninstall_cluster_resource name id) = name ≡ n
IsAbout n r = ⊥

-- What is beside the open cluster, the indicators and the stored error.
abbrev pub elsewhere :
    World
    → ClusterCreatorStore × ClustersListStore × Wizard × Dialog × Browser × LoginForm × Choices
elsewhere w = (w.creator, w.clusters_list, w.wizard, w.dialog, w.browser, w.login_form, w.choices)
