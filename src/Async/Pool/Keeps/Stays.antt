-- ===== src/Async/Pool/Keeps/Stays.antt =====
-- Each method of cluster-management-store.ts asks about the open cluster alone, and leaves its name and
-- what is beside it as they are.
use makoon.Prelude.{◌≡◌, ◌∙◌, refl, ℕ, Option, none, some, List, [], ◌∷◌, Text}
use makoon.Js.Array.{push}
use makoon.Model.{HelmApp, ClusterResource, ClusterNode, ClusterNodeLock}
use makoon.Api.{
  delete_node_from_cluster, change_node_resources, add_node_to_cluster, clear_logs_for_cluster,
  update_helm_app, install_helm_app, update_cluster_resource,
}
use makoon.World.{
  World, ClusterManagementStore, ClusterCreatorStore, ClustersListStore, Wizard, Dialog, Browser,
  LoginForm, Choices, type_error,
}
use makoon.Async.{resolved, rejected, Async, pure, gets, modify, request, ◌>>=◌}
use makoon.Async.Call.{api_call, wrap_with_processing_indicator, start, stop}
use makoon.Async.Pool.Keeps.{reads, asks}
use makoon.Async.Pool.Keeps.Methods.{
  KeepsAsync, keeps_bind, keeps_modify, keeps_gets, keeps_api_call, keeps_try_finally, keeps_detach,
  keeps_if, keeps_defined,
}
use makoon.Management.Actions.{
  cluster_name_of, is_blank, defined, load_logs, update_cluster_node_vm_statuses,
  update_cluster_kube_statuses, update_nodes_if_there_is_any_lock, any_lock, reduce_locks,
  fetch_nodes, fetch_if_locked, update_apps_status, when_named, run_in_action, set_helm_apps,
  set_resources, set_nodes, set_fresh_nodes,
}
use makoon.Management.Apps.{
  add_helm_chart, push_app, update_helm_chart, replace_app,
  install_helm_chart_without_handle_global_error_handling, uninstall_helm_chart, delete_helm_chart,
  without_app, add_k8s_resources, push_resource, update_k8s_resources, replace_resource,
  install_k8s_resources_without_global_error_handling,
  uninstall_k8s_resources_without_error_handling, delete_k8s_resources, without_resource,
}
use makoon.Management.Members.{
  index_of_name, put_node, change_resources_of_node, add_node, delete_node_from_cluster_by_name,
  clear_logs,
}
use makoon.Pages.{poll_logs}
use makoon.Async.Pool.Keeps.About.{IsAbout, elsewhere}

module _ (n : Text)
    (kept : ClusterCreatorStore × ClustersListStore × Wizard × Dialog × Browser × LoginForm
      × Choices) where
  abbrev pub OnCluster : World → Type 0
  OnCluster w = (cluster_name_of w ≡ n) × (elsewhere w ≡ kept)

  abbrev pub Stays : {A : Type 0} → Async A → Type 0
  Stays m = KeepsAsync OnCluster (IsAbout n) m

  calls : {A : Type 0} (m : Async A) (key : Text) → Stays m → Stays (api_call m key)
  calls m key km =
      keeps_api_call OnCluster (IsAbout n) (λ _ w p. p) (λ _ w p. p) (λ _ w p. p) m key km

  binds :
      {A B : Type 0} (m : Async A) (f : A → Async B)
      → Stays m
      → ((a : A) → Stays (f a))
      → Stays (m >>= f)
  binds = keeps_bind OnCluster (IsAbout n)

  -- A write to the store that leaves the cluster its name.
  runs :
      (f : ClusterManagementStore → ClusterManagementStore)
      → ((m : ClusterManagementStore) → (f m).cluster.cluster_name ≡ m.cluster.cluster_name)
      → Stays (run_in_action f)
  runs f same = keeps_modify OnCluster (IsAbout n) _ (λ w p. (same w.management ∙ p.0, p.1))

  -- A value of the page, and what is done with it where it is defined.
  finds :
      {A B : Type 0} (g : World → Option A) (f : A → Async B)
      → ((a : A) → Stays (f a))
      → Stays (gets g >>= λ o. defined o >>= f)
  finds g f kf =
      binds (gets g) _ (keeps_gets OnCluster (IsAbout n) g)
        (λ o. binds (defined o) f (keeps_defined OnCluster (IsAbout n) o) kf)

  pub when_named-Stays :
      (body : Text → Async (Unit {0})) → ((x : Text) → Stays (body x)) → Stays (when_named body)
  when_named-Stays body kb k h = reads (λ w p.
      keeps_if OnCluster (IsAbout n) (is_blank (cluster_name_of w)) (pure tt)
        (body (cluster_name_of w)) (λ k' h'. h' (resolved tt)) (kb (cluster_name_of w)) k h)

  pub update_apps_status-Stays : Stays update_apps_status
  unfolding update_apps_status
  update_apps_status-Stays =
      when_named-Stays _
        (λ _. binds _ _ (calls _ _ (λ k h. reads (λ w p. asks p.0 h))) (λ a. runs _ (λ m. refl)))

  pub add_helm_chart-Stays : (key : Text) (app : HelmApp) → Stays (add_helm_chart key app)
  unfolding add_helm_chart
  add_helm_chart-Stays key app = binds _ _ (calls _ key (λ k h. reads (λ w p. asks p.0 h))) (λ id.
      binds _ _ (runs (push_app (record app { id = some id })) (λ m. refl)) (λ _.
        binds _ _ (keeps_detach OnCluster (IsAbout n) update_apps_status update_apps_status-Stays)
          (λ _ k h. h (resolved id))))

  pub update_helm_chart-Stays : (key : Text) (app : HelmApp) → Stays (update_helm_chart key app)
  unfolding update_helm_chart
  update_helm_chart-Stays key app = finds _ _ (λ apps.
      binds _ _ (runs (set_helm_apps (replace_app app apps)) (λ m. refl)) (λ _.
        calls (gets cluster_name_of >>= λ name. request (update_helm_app name app)) key
          (λ k h. reads (λ w p. asks p.0 h))))

  pub install_helm_chart-Stays :
      (id : Text) → Stays (install_helm_chart_without_handle_global_error_handling id)
  unfolding install_helm_chart_without_handle_global_error_handling
  install_helm_chart-Stays id =
      keeps_try_finally OnCluster (IsAbout n)
        (gets cluster_name_of >>= λ name. request (install_helm_app name id)) update_apps_status
        (λ k h. reads (λ w p. asks p.0 h)) update_apps_status-Stays

  pub uninstall_helm_chart-Stays : (id : Text) → Stays (uninstall_helm_chart id)
  unfolding uninstall_helm_chart
  uninstall_helm_chart-Stays id =
      binds _ _ (calls _ _ (λ k h. reads (λ w p. asks p.0 h))) (λ _. update_apps_status-Stays)

  pub delete_helm_chart-Stays : (id : Text) → Stays (delete_helm_chart id)
  unfolding delete_helm_chart
  delete_helm_chart-Stays id =
      binds _ _ (calls _ _ (λ k h. reads (λ w p. asks p.0 h)))
        (λ _. finds _ _ (λ apps. runs (set_helm_apps (without_app id apps)) (λ m. refl)))

  pub add_k8s_resources-Stays : (key : Text) (r : ClusterResource) → Stays (add_k8s_resources key r)
  unfolding add_k8s_resources
  add_k8s_resources-Stays key r = binds _ _ (calls _ key (λ k h. reads (λ w p. asks p.0 h))) (λ id.
      binds _ _ (runs (push_resource (record r { id = id })) (λ m. refl))
        (λ _ k h. h (resolved id)))

  pub update_k8s_resources-Stays :
      (key : Text) (r : ClusterResource) → Stays (update_k8s_resources key r)
  unfolding update_k8s_resources
  update_k8s_resources-Stays key r = finds _ _ (λ rs.
      binds _ _ (runs (set_resources (replace_resource r rs)) (λ m. refl)) (λ _.
        calls (gets cluster_name_of >>= λ name. request (update_cluster_resource name r)) key
          (λ k h. reads (λ w p. asks p.0 h))))

  -- A block under an indicator.
  wraps :
      {A : Type 0} (key : Text) (m : Async A)
      → Stays m
      → Stays (wrap_with_processing_indicator key m)
  unfolding wrap_with_processing_indicator
  wraps key m km = binds _ _ (keeps_modify OnCluster (IsAbout n) (start key) (λ w p. p)) (λ _.
      keeps_try_finally OnCluster (IsAbout n) m (modify (stop key)) km
        (keeps_modify OnCluster (IsAbout n) (stop key) (λ w p. p)))

  pub install_k8s_resources-Stays :
      (id : Text) → Stays (install_k8s_resources_without_global_error_handling id)
  unfolding install_k8s_resources_without_global_error_handling
  install_k8s_resources-Stays id = wraps _ _ (λ k h. reads (λ w p. asks p.0 h))

  pub uninstall_k8s_resources-Stays :
      (id : Text) → Stays (uninstall_k8s_resources_without_error_handling id)
  unfolding uninstall_k8s_resources_without_error_handling
  uninstall_k8s_resources-Stays id = wraps _ _ (λ k h. reads (λ w p. asks p.0 h))

  pub delete_k8s_resources-Stays : (id : Text) → Stays (delete_k8s_resources id)
  unfolding delete_k8s_resources
  delete_k8s_resources-Stays id =
      binds _ _ (calls _ _ (λ k h. reads (λ w p. asks p.0 h)))
        (λ _. finds _ _ (λ rs. runs (set_resources (without_resource id rs)) (λ m. refl)))

  put_node_name :
      (i : Option ℕ) (node : ClusterNode) (nodes : List ClusterNode) (m : ClusterManagementStore)
      → (put_node i node nodes m).cluster.cluster_name ≡ m.cluster.cluster_name
  put_node_name none node nodes m = refl
  put_node_name (some i) node nodes m = refl

  pub delete_node-Stays : (node_name : Text) → Stays (delete_node_from_cluster_by_name node_name)
  unfolding delete_node_from_cluster_by_name
  delete_node-Stays node_name k h = reads (λ w p.
      binds (request (delete_node_from_cluster (cluster_name_of w) node_name)) _
        (λ k' h'. asks p.0 h')
        (λ deleted_node. finds _ _ (λ nodes. runs _ (put_node_name _ deleted_node nodes))) k h)

  pub add_node-Stays : (node : ClusterNode) → Stays (add_node node)
  unfolding add_node
  add_node-Stays node k h = reads (λ w p.
      binds (request (add_node_to_cluster (cluster_name_of w) node)) _ (λ k' h'. asks p.0 h')
        (λ added_node. finds _ _ (λ nodes. runs (set_nodes (push nodes added_node)) (λ m. refl))) k
        h)

  asks_for :
      (node_name : Text) (cores memory : ℕ)
      → Stays (
          gets cluster_name_of >>= λ name.
          request
            (change_node_resources name node_name (record { cores = cores; memory = memory })))
  asks_for node_name cores memory k h = reads (λ w p. asks p.0 h)

  pub change_resources_of_node-Stays :
      (node_name : Text) (cores memory : ℕ)
      → Stays (change_resources_of_node node_name cores memory)
  unfolding change_resources_of_node
  change_resources_of_node-Stays node_name cores memory = finds _ _ (λ nodes. finds _ _ (λ node.
      binds _ _ (runs _ (put_node_name (index_of_name node_name nodes) _ nodes))
        (λ _. asks_for node_name cores memory)))

  pub clear_logs-Stays : Stays clear_logs
  unfolding clear_logs
  clear_logs-Stays k h = reads (λ w p.
      binds (request (clear_logs_for_cluster (cluster_name_of w))) _ (λ k' h'. asks p.0 h')
        (λ _. runs _ (λ m. refl)) k h)

  pub poll_logs-Stays : Stays poll_logs
  unfolding poll_logs load_logs
  poll_logs-Stays k h =
      reads (λ w p. binds _ _ (calls _ _ (λ k' h'. asks p.0 h')) (λ a. runs _ (λ m. refl)) k h)

  pub vm_statuses-Stays : (key : Text) → Stays (update_cluster_node_vm_statuses key)
  unfolding update_cluster_node_vm_statuses
  vm_statuses-Stays key =
      when_named-Stays _
        (λ _. binds _ _ (calls _ key (λ k h. reads (λ w p. asks p.0 h))) (λ a. runs _ (λ m. refl)))

  pub kube_statuses-Stays : (key : Text) → Stays (update_cluster_kube_statuses key)
  unfolding update_cluster_kube_statuses
  kube_statuses-Stays key =
      when_named-Stays _
        (λ _. binds _ _ (calls _ key (λ k h. reads (λ w p. asks p.0 h))) (λ a. runs _ (λ m. refl)))

  pub fetch_nodes-Stays : (key : Text) → Stays (fetch_nodes key)
  fetch_nodes-Stays key =
      binds _ _ (calls _ key (λ k h. reads (λ w p. asks p.0 h)))
        (λ a. runs (set_fresh_nodes a) (λ m. refl))

  pub if_locked-Stays :
      (key : Text) (l : Option ClusterNodeLock)
      → Stays (elim l as (λ _. Async (Unit {0})) [ none ↦ pure tt | some _ ↦ fetch_nodes key ])
  if_locked-Stays key none k h = h (resolved tt)
  if_locked-Stays key (some l) k h = fetch_nodes-Stays key k h

  pub fetch_if_locked-Stays :
      (key : Text) (nodes : List ClusterNode) → Stays (fetch_if_locked key nodes)
  unfolding any_lock
  fetch_if_locked-Stays key [] k h = h (rejected type_error)
  fetch_if_locked-Stays key (x ∷ xs) k h = if_locked-Stays key (reduce_locks x.lock xs) k h

  pub locked_nodes-Stays : (key : Text) → Stays (update_nodes_if_there_is_any_lock key)
  unfolding update_nodes_if_there_is_any_lock
  locked_nodes-Stays key = when_named-Stays _ (λ _. finds _ _ (fetch_if_locked-Stays key))
