-- ===== src/Api/Http.antt =====
-- The calls of `axios` in web/src-web/src/api/*.ts.
use makoon.Prelude.{List, [], ◌∷◌, Text, units}
use makoon.Model.{
  HelmApp, ClusterResource, ClusterNode, ClusterRequest, LoginRequest, ChangeNodeResourcesRequest,
}
use makoon.Api.{
  StorageContentType, iso, images, rootdir, vztmpl, backup, snippets, Request, get_clusters,
  get_cluster, get_cluster_nodes, delete_cluster, delete_node_from_cluster, change_node_resources,
  create_cluster, add_node_to_cluster, generate_default_cluster_configuration, logs_for_cluster,
  clear_logs_for_cluster, cluster_node_vms_status, cluster_kube_status, apps_status, save_helm_app,
  update_helm_app, delete_helm_app, install_helm_app, uninstall_helm_app, save_cluster_resource,
  update_cluster_resource, delete_cluster_resource, install_cluster_resource,
  uninstall_cluster_resource, get_logged_in_host_ip, login, logout, nodes, bridges, storage,
  os_images, kube_versions,
}

pub data Method : Type 0 where
  http_get http_post http_put http_delete : Method

pub data Body : Type 0 where
  empty : Body
  app_body : HelmApp → Body
  resource_body : ClusterResource → Body
  node_body : ClusterNode → Body
  resources_body : ChangeNodeResourcesRequest → Body
  cluster_body : ClusterRequest → Body
  login_body : LoginRequest → Body

pub record HttpCall : Type 0 where
  pub method : Method
  pub path : List Text
  pub body : Body

abbrev pub content_type_name : StorageContentType → Text
content_type_name iso = units "iso"
content_type_name images = units "images"
content_type_name rootdir = units "rootdir"
content_type_name vztmpl = units "vztmpl"
content_type_name backup = units "backup"
content_type_name snippets = units "snippets"

abbrev call : Method → List Text → Body → HttpCall
call m p b = record { method = m; path = units "api" ∷ units "v1" ∷ p; body = b }

abbrev cluster_path : Text → List Text → List Text
cluster_path name rest = units "clusters" ∷ name ∷ rest

abbrev app_path : Text → List Text → List Text
app_path name rest = cluster_path name (units "apps" ∷ rest)

abbrev resource_path : Text → List Text → List Text
resource_path name rest = cluster_path name (units "cluster-resources" ∷ rest)

-- apps.ts, cluster_resources.ts, auth.ts, nodes.ts, networks.ts, storage.ts and settings.ts.
abbrev pub apps_status_call : Text → HttpCall
apps_status_call cluster_name = call http_get (app_path cluster_name (units "status" ∷ [])) empty

abbrev pub save_helm_app_call : Text → HelmApp → HttpCall
save_helm_app_call cluster_name app = call http_post (app_path cluster_name []) (app_body app)

abbrev pub update_helm_app_call : Text → HelmApp → HttpCall
update_helm_app_call cluster_name app = call http_put (app_path cluster_name []) (app_body app)

abbrev pub delete_helm_app_call : Text → Text → HttpCall
delete_helm_app_call cluster_name app_id =
    call http_delete (app_path cluster_name (app_id ∷ [])) empty

abbrev pub install_helm_app_call : Text → Text → HttpCall
install_helm_app_call cluster_name app_id =
    call http_post (app_path cluster_name (app_id ∷ units "install" ∷ [])) empty

abbrev pub uninstall_helm_app_call : Text → Text → HttpCall
uninstall_helm_app_call cluster_name app_id =
    call http_delete (app_path cluster_name (app_id ∷ units "uninstall" ∷ [])) empty

abbrev pub save_cluster_resource_call : Text → ClusterResource → HttpCall
save_cluster_resource_call cluster_name app =
    call http_post (resource_path cluster_name []) (resource_body app)

abbrev pub update_cluster_resource_call : Text → ClusterResource → HttpCall
update_cluster_resource_call cluster_name app =
    call http_put (resource_path cluster_name []) (resource_body app)

abbrev pub delete_cluster_resource_call : Text → Text → HttpCall
delete_cluster_resource_call cluster_name res_id =
    call http_delete (resource_path cluster_name (res_id ∷ [])) empty

abbrev pub install_cluster_resource_call : Text → Text → HttpCall
install_cluster_resource_call cluster_name res_id =
    call http_post (resource_path cluster_name (res_id ∷ units "install" ∷ [])) empty

abbrev pub uninstall_cluster_resource_call : Text → Text → HttpCall
uninstall_cluster_resource_call cluster_name res_id =
    call http_delete (resource_path cluster_name (res_id ∷ units "uninstall" ∷ [])) empty

abbrev pub get_logged_in_host_ip_call : HttpCall
get_logged_in_host_ip_call = call http_get (units "host-ip" ∷ []) empty

abbrev pub login_call : LoginRequest → HttpCall
login_call req = call http_post (units "login" ∷ []) (login_body req)

abbrev pub logout_call : HttpCall
logout_call = call http_post (units "logout" ∷ []) empty

abbrev pub nodes_call : HttpCall
nodes_call = call http_get (units "nodes" ∷ []) empty

abbrev pub bridges_call : Text → HttpCall
bridges_call node =
    call http_get (units "nodes" ∷ node ∷ units "networks" ∷ units "bridges" ∷ []) empty

abbrev pub storage_call : Text → StorageContentType → HttpCall
storage_call node content_type =
    call http_get (units "nodes" ∷ node ∷ units "storage" ∷ content_type_name content_type ∷ [])
      empty

abbrev pub os_images_call : HttpCall
os_images_call = call http_get (units "os-images" ∷ []) empty

abbrev pub kube_versions_call : HttpCall
kube_versions_call = call http_get (units "kube-versions" ∷ []) empty

-- The call of a request. The path is the list of the segments of the template literal.
unfoldable pub http : Request → HttpCall
http get_clusters = call http_get (units "clusters" ∷ []) empty
http (get_cluster name) = call http_get (cluster_path name []) empty
http (get_cluster_nodes name) = call http_get (cluster_path name (units "nodes" ∷ [])) empty
http (delete_cluster name) = call http_delete (cluster_path name []) empty
http (delete_node_from_cluster cluster_name node_name) =
    call http_delete (cluster_path cluster_name (units "nodes" ∷ node_name ∷ [])) empty
http (change_node_resources cluster_name node_name resources) =
    call http_put (cluster_path cluster_name (units "nodes" ∷ node_name ∷ units "resources" ∷ []))
      (resources_body resources)
http (create_cluster request) = call http_post (units "clusters" ∷ []) (cluster_body request)
http (add_node_to_cluster cluster_name request) =
    call http_post (cluster_path cluster_name (units "nodes" ∷ [])) (node_body request)
http generate_default_cluster_configuration =
    call http_get (units "clusters" ∷ units "generate" ∷ []) empty
http (logs_for_cluster name) = call http_get (cluster_path name (units "logs" ∷ [])) empty
http (clear_logs_for_cluster name) = call http_delete (cluster_path name (units "logs" ∷ [])) empty
http (cluster_node_vms_status cluster_name) =
    call http_get (cluster_path cluster_name (units "status" ∷ units "vms" ∷ [])) empty
http (cluster_kube_status cluster_name) =
    call http_get (cluster_path cluster_name (units "status" ∷ units "kube" ∷ [])) empty
http (apps_status cluster_name) = apps_status_call cluster_name
http (save_helm_app cluster_name app) = save_helm_app_call cluster_name app
http (update_helm_app cluster_name app) = update_helm_app_call cluster_name app
http (delete_helm_app cluster_name app_id) = delete_helm_app_call cluster_name app_id
http (install_helm_app cluster_name app_id) = install_helm_app_call cluster_name app_id
http (uninstall_helm_app cluster_name app_id) = uninstall_helm_app_call cluster_name app_id
http (save_cluster_resource cluster_name app) = save_cluster_resource_call cluster_name app
http (update_cluster_resource cluster_name app) = update_cluster_resource_call cluster_name app
http (delete_cluster_resource cluster_name res_id) =
    delete_cluster_resource_call cluster_name res_id
http (install_cluster_resource cluster_name res_id) =
    install_cluster_resource_call cluster_name res_id
http (uninstall_cluster_resource cluster_name res_id) =
    uninstall_cluster_resource_call cluster_name res_id
http get_logged_in_host_ip = get_logged_in_host_ip_call
http (login req) = login_call req
http logout = logout_call
http nodes = nodes_call
http (bridges node) = bridges_call node
http (storage node content_type) = storage_call node content_type
http os_images = os_images_call
http kube_versions = kube_versions_call
