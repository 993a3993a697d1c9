-- ===== src/Async/Pool/Keeps/OneCluster.antt =====
-- The methods of cluster-management-store.ts on an open cluster, in every order of calls and answers:
-- which cluster their requests are about, and what they leave alone.
use mathlib.Core.Path.{subst}
use makoon.Prelude.{◌≡◌, sym, refl, ℕ, List, [], ◌∷◌, All, Text}
use makoon.Model.{HelmApp, ClusterResource, ClusterNode}
use makoon.Api.{Request}
use makoon.World.{
  World, ClusterCreatorStore, ClustersListStore, Wizard, Dialog, Browser, LoginForm, Choices,
}
use makoon.Async.{Task, end, call, Async}
use makoon.Async.Run.{Server}
use makoon.Async.Pool.{System, idle}
use makoon.Async.Pool.Keeps.{Keeps, ends, Waits, waits, Reaches, Reaches-IsKept}
use makoon.Management.Actions.{
  cluster_name_of, update_cluster_node_vm_statuses, update_cluster_kube_statuses,
  update_nodes_if_there_is_any_lock, update_apps_status,
}
use makoon.Management.Apps.{
  add_helm_chart, update_helm_chart, install_helm_chart_without_handle_global_error_handling,
  uninstall_helm_chart, delete_helm_chart, add_k8s_resources, update_k8s_resources,
  install_k8s_resources_without_global_error_handling,
  uninstall_k8s_resources_without_error_handling, delete_k8s_resources,
}
use makoon.Management.Members.{
  change_resources_of_node, add_node, delete_node_from_cluster_by_name, clear_logs,
}
use makoon.Pages.{poll_logs}
use makoon.Async.Pool.Keeps.About.{IsAbout, elsewhere}
use makoon.Async.Pool.Keeps.Stays.{
  OnCluster, Stays, update_apps_status-Stays, add_helm_chart-Stays, update_helm_chart-Stays,
  install_helm_chart-Stays, uninstall_helm_chart-Stays, delete_helm_chart-Stays,
  add_k8s_resources-Stays, update_k8s_resources-Stays, install_k8s_resources-Stays,
  uninstall_k8s_resources-Stays, delete_k8s_resources-Stays, delete_node-Stays, add_node-Stays,
  change_resources_of_node-Stays, clear_logs-Stays, poll_logs-Stays, vm_statuses-Stays,
  kube_statuses-Stays, locked_nodes-Stays,
}

-- The methods of the store, but not the one that opens a cluster, each with the random key that its call
-- of `apiCall` draws, if any.
pub data IsMethod (t : Task) : Type 0 where
  vm_statuses : (key : Text) → t ≡ update_cluster_node_vm_statuses key (λ _. end) → IsMethod t
  kube_statuses : (key : Text) → t ≡ update_cluster_kube_statuses key (λ _. end) → IsMethod t
  locked_nodes : (key : Text) → t ≡ update_nodes_if_there_is_any_lock key (λ _. end) → IsMethod t
  statuses_of_apps : t ≡ update_apps_status (λ _. end) → IsMethod t
  loads_logs : t ≡ poll_logs (λ _. end) → IsMethod t
  clears_logs : t ≡ clear_logs (λ _. end) → IsMethod t
  adds_app : (key : Text) (app : HelmApp) → t ≡ add_helm_chart key app (λ _. end) → IsMethod t
  updates_app : (key : Text) (app : HelmApp) → t ≡ update_helm_chart key app (λ _. end) → IsMethod t
  installs_app :
      (id : Text)
      → t ≡ install_helm_chart_without_handle_global_error_handling id (λ _. end)
      → IsMethod t
  uninstalls_app : (id : Text) → t ≡ uninstall_helm_chart id (λ _. end) → IsMethod t
  deletes_app : (id : Text) → t ≡ delete_helm_chart id (λ _. end) → IsMethod t
  adds_resource :
      (key : Text) (r : ClusterResource) → t ≡ add_k8s_resources key r (λ _. end) → IsMethod t
  updates_resource :
      (key : Text) (r : ClusterResource) → t ≡ update_k8s_resources key r (λ _. end) → IsMethod t
  installs_resource :
      (id : Text)
      → t ≡ install_k8s_resources_without_global_error_handling id (λ _. end)
      → IsMethod t
  uninstalls_resource :
      (id : Text) → t ≡ uninstall_k8s_resources_without_error_handling id (λ _. end) → IsMethod t
  deletes_resource : (id : Text) → t ≡ delete_k8s_resources id (λ _. end) → IsMethod t
  deletes_node :
      (node_name : Text) → t ≡ delete_node_from_cluster_by_name node_name (λ _. end) → IsMethod t
  changes_node :
      (node_name : Text) (cores memory : ℕ)
      → t ≡ change_resources_of_node node_name cores memory (λ _. end)
      → IsMethod t
  adds_node : (node : ClusterNode) → t ≡ add_node node (λ _. end) → IsMethod t

module _ (n : Text)
    (kept : ClusterCreatorStore × ClustersListStore × Wizard × Dialog × Browser × LoginForm
      × Choices) where
  -- A method from its call on.
  called :
      {A : Type 0} {t : Task} (m : Async A)
      → t ≡ m (λ _. end)
      → Stays n kept m
      → Keeps (OnCluster n kept) (IsAbout n) t
  called m e km = subst (Keeps (OnCluster n kept) (IsAbout n)) (sym e) (km (λ _. end) (λ _. ends))

  IsMethod-Keeps : (t : Task) → IsMethod t → Keeps (OnCluster n kept) (IsAbout n) t
  IsMethod-Keeps t (vm_statuses key e) = called _ e (vm_statuses-Stays n kept key)
  IsMethod-Keeps t (kube_statuses key e) = called _ e (kube_statuses-Stays n kept key)
  IsMethod-Keeps t (locked_nodes key e) = called _ e (locked_nodes-Stays n kept key)
  IsMethod-Keeps t (statuses_of_apps e) = called _ e (update_apps_status-Stays n kept)
  IsMethod-Keeps t (loads_logs e) = called _ e (poll_logs-Stays n kept)
  IsMethod-Keeps t (clears_logs e) = called _ e (clear_logs-Stays n kept)
  IsMethod-Keeps t (adds_app key app e) = called _ e (add_helm_chart-Stays n kept key app)
  IsMethod-Keeps t (updates_app key app e) = called _ e (update_helm_chart-Stays n kept key app)
  IsMethod-Keeps t (installs_app id e) = called _ e (install_helm_chart-Stays n kept id)
  IsMethod-Keeps t (uninstalls_app id e) = called _ e (uninstall_helm_chart-Stays n kept id)
  IsMethod-Keeps t (deletes_app id e) = called _ e (delete_helm_chart-Stays n kept id)
  IsMethod-Keeps t (adds_resource key r e) = called _ e (add_k8s_resources-Stays n kept key r)
  IsMethod-Keeps t (updates_resource key r e) = called _ e (update_k8s_resources-Stays n kept key r)
  IsMethod-Keeps t (installs_resource id e) = called _ e (install_k8s_resources-Stays n kept id)
  IsMethod-Keeps t (uninstalls_resource id e) = called _ e (uninstall_k8s_resources-Stays n kept id)
  IsMethod-Keeps t (deletes_resource id e) = called _ e (delete_k8s_resources-Stays n kept id)
  IsMethod-Keeps t (deletes_node node_name e) = called _ e (delete_node-Stays n kept node_name)
  IsMethod-Keeps t (changes_node node_name cores memory e) =
      called _ e (change_resources_of_node-Stays n kept node_name cores memory)
  IsMethod-Keeps t (adds_node node e) = called _ e (add_node-Stays n kept node)

-- Whether a task stands at a request of `R`.
abbrev pub StandsAt : (Request → Type 0) → Task → Type 0
StandsAt R (call r k) = R r
StandsAt R t = ⊥

Waits-StandsAt :
    (P : World → Type 0) (R : Request → Type 0) (ts : List Task)
    → All (Waits P R) ts
    → All (StandsAt R) ts
Waits-StandsAt P R [] _ = tt
Waits-StandsAt P R (t ∷ ts) (waits r_ok f, h) = (r_ok, Waits-StandsAt P R ts h)

-- On the page of an open cluster, whatever methods of its store are called, at any time and as often as
-- one likes, and in whatever order the server answers or refuses them: every request that is waiting for
-- its answer is about the cluster that was open at first, which stays open, and the wizard, the list of
-- clusters, the dialogs, the forms and the browser stay as they are. Only the method that opens a cluster
-- is left out.
pub methods-IsAbout :
    {S : Type 0} (serve : Server S) (w : World) (s : S) (y : System S)
    → Reaches serve IsMethod (idle w s) y
    → (cluster_name_of y.world ≡ cluster_name_of w)
      × (elsewhere y.world ≡ elsewhere w)
      × All (StandsAt (IsAbout (cluster_name_of w))) y.waiting
methods-IsAbout serve w s y r =
    let n = cluster_name_of w in
    let kept = elsewhere w in
    let ((name, rest), waiting) =
      Reaches-IsKept serve IsMethod (OnCluster n kept) (IsAbout n) (IsMethod-Keeps n kept) r
        ((refl, refl), tt) in
    (name, rest, Waits-StandsAt _ _ y.waiting waiting)
