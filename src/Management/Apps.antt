-- ===== src/Management/Apps.antt =====
-- The asynchronous methods of web/src-web/src/store/cluster-management-store.ts on Helm apps and
-- Kubernetes resources.
use makoon.Prelude.{not, some, List, Text, text_eq, ◌==◌}
use makoon.Js.Array.{find_index, filter, set_at, push}
use makoon.Model.{HelmApp, ClusterResource}
use makoon.Model.Names.{option_beq}
use makoon.Api.{
  save_helm_app, update_helm_app, install_helm_app, uninstall_helm_app, delete_helm_app,
  save_cluster_resource, update_cluster_resource, install_cluster_resource,
  uninstall_cluster_resource, delete_cluster_resource,
}
use makoon.World.{ClusterManagementStore}
use makoon.Async.{Async, pure, try_finally, gets, request, detach, ◌>>=◌, ◌>>◌}
use makoon.Async.Call.{api_call, wrap_with_processing_indicator}
use makoon.Management.{or_empty}
use makoon.Management.Actions.{
  run_in_action, cluster_name_of, defined, set_helm_apps, set_resources, update_apps_status,
  loading_indicator_uninstall_helm_chart, loading_indicator_delete_helm_chart,
  loading_indicator_install_k8s_resource, loading_indicator_uninstall_k8s_resource,
  loading_indicator_delete_k8s_resource,
}

-- `helmApps` becomes an array where it was undefined, and the app is put at its end.
abbrev pub push_app : HelmApp → ClusterManagementStore → ClusterManagementStore
push_app app m = set_helm_apps (push (or_empty m.cluster.helm_apps) app) m

-- The status is refreshed by a call that is not awaited.
unfoldable pub add_helm_chart : Text → HelmApp → Async Text
add_helm_chart key app = do
  id ← api_call (do name ← gets cluster_name_of; request (save_helm_app name app)) key
  run_in_action (push_app (record app { id = some id }))
  detach update_apps_status
  pure id

abbrev pub replace_app : HelmApp → List HelmApp → List HelmApp
replace_app app apps = set_at (find_index (λ e. option_beq e.id app.id) apps) app apps

-- The list is changed first, and the server is asked afterwards.
unfoldable pub update_helm_chart : Text → HelmApp → Async (Unit {0})
update_helm_chart key app = do
  found ← gets (λ w. w.management.cluster.helm_apps)
  apps ← defined found
  run_in_action (set_helm_apps (replace_app app apps))
  api_call (do name ← gets cluster_name_of; request (update_helm_app name app)) key

unfoldable pub install_helm_chart_without_handle_global_error_handling : Text → Async (Unit {0})
install_helm_chart_without_handle_global_error_handling id =
    try_finally (do name ← gets cluster_name_of; request (install_helm_app name id))
      update_apps_status

unfoldable pub uninstall_helm_chart : Text → Async (Unit {0})
uninstall_helm_chart id = do
  api_call (do name ← gets cluster_name_of; request (uninstall_helm_app name id))
      loading_indicator_uninstall_helm_chart
  update_apps_status

abbrev pub without_app : Text → List HelmApp → List HelmApp
without_app id apps = filter (λ e. not (option_beq e.id (some id))) apps

-- The server is asked first, and the list is changed if it agrees.
unfoldable pub delete_helm_chart : Text → Async (Unit {0})
delete_helm_chart id = do
  api_call (do name ← gets cluster_name_of; request (delete_helm_app name id))
      loading_indicator_delete_helm_chart
  found ← gets (λ w. w.management.cluster.helm_apps)
  apps ← defined found
  run_in_action (set_helm_apps (without_app id apps))

abbrev pub push_resource : ClusterResource → ClusterManagementStore → ClusterManagementStore
push_resource r m = set_resources (push (or_empty m.cluster.cluster_resources) r) m

unfoldable pub add_k8s_resources : Text → ClusterResource → Async Text
add_k8s_resources key cks = do
  id ← api_call (do name ← gets cluster_name_of; request (save_cluster_resource name cks)) key
  run_in_action (push_resource (record cks { id = id }))
  pure id

abbrev pub replace_resource : ClusterResource → List ClusterResource → List ClusterResource
replace_resource kr rs = set_at (find_index (λ e. e.id == kr.id) rs) kr rs

unfoldable pub update_k8s_resources : Text → ClusterResource → Async (Unit {0})
update_k8s_resources key kr = do
  found ← gets (λ w. w.management.cluster.cluster_resources)
  rs ← defined found
  run_in_action (set_resources (replace_resource kr rs))
  api_call (do name ← gets cluster_name_of; request (update_cluster_resource name kr)) key

unfoldable pub install_k8s_resources_without_global_error_handling : Text → Async (Unit {0})
install_k8s_resources_without_global_error_handling id =
    wrap_with_processing_indicator loading_indicator_install_k8s_resource
      (do name ← gets cluster_name_of; request (install_cluster_resource name id))

unfoldable pub uninstall_k8s_resources_without_error_handling : Text → Async (Unit {0})
uninstall_k8s_resources_without_error_handling id =
    wrap_with_processing_indicator loading_indicator_uninstall_k8s_resource
      (do name ← gets cluster_name_of; request (uninstall_cluster_resource name id))

abbrev pub without_resource : Text → List ClusterResource → List ClusterResource
without_resource id rs = filter (λ e. not (e.id == id)) rs

unfoldable pub delete_k8s_resources : Text → Async (Unit {0})
delete_k8s_resources id = do
  api_call (do name ← gets cluster_name_of; request (delete_cluster_resource name id))
      loading_indicator_delete_k8s_resource
  found ← gets (λ w. w.management.cluster.cluster_resources)
  rs ← defined found
  run_in_action (set_resources (without_resource id rs))
