-- ===== src/Async/Pool/Keeps/Polls.antt =====
-- The polls of the pages: what they leave alone in every order of calls and answers.
use mathlib.Core.Path.{subst}
use makoon.Prelude.{◌≡◌, sym, refl, Option, none, some, List, [], ◌∷◌, Text}
use makoon.Api.{Request}
use makoon.Model.{ClusterNode, ClusterNodeLock}
use makoon.World.{World, type_error, message}
use makoon.Async.{Task, end, resolved, rejected, Async, pure, modify, ◌>>=◌}
use makoon.Async.Call.{api_call}
use makoon.Async.Run.{Server}
use makoon.Async.Pool.{System, idle}
use makoon.Async.Pool.Keeps.Methods.{
  KeepsAsync, keeps_bind, keeps_modify, keeps_api_call, keeps_if, keeps_defined,
}
use makoon.Async.Pool.Keeps.{Keeps, ends, reads, asks, IsKept, Reaches, Reaches-IsKept}
use makoon.Management.Actions.{
  cluster_name_of, is_blank, defined, load_logs, update_cluster_node_vm_statuses,
  update_cluster_kube_statuses, update_nodes_if_there_is_any_lock, any_lock, reduce_locks,
  fetch_nodes, fetch_if_locked, update_apps_status, when_named,
}
use makoon.ClustersList.{load_clusters}
use makoon.Dialogs.NodeDialogs.{poll_nodes}
use makoon.Pages.{poll_logs, poll_clusters}

-- A page without what the polls change: the statuses, the nodes and the logs of the open cluster, the
-- list of clusters, the indicators and the stored error.
abbrev pub still : World → World
still w = record w {
  application = record { error = message [] };
  indicator = record { loaders = [] };
  clusters_list = record { clusters = [] };
  management = record w.management {
    cluster_node_vm_statuses = [];
    cluster_kube_statuses = [];
    helm_apps_status = [];
    stray_node = none;
    logs = [];
    cluster = record w.management.cluster { nodes = none };
  };
}

abbrev pub AnyRequest : Request → Type 0
AnyRequest r = Unit {0}

-- The polls of the pages, each with the keys that its calls of `apiCall` draw.
pub data IsPoll (t : Task) : Type 0 where
  nodes_page : (a b c : Text) → t ≡ poll_nodes a b c (λ _. end) → IsPoll t
  apps_page : t ≡ update_apps_status (λ _. end) → IsPoll t
  logs_page : t ≡ poll_logs (λ _. end) → IsPoll t
  list_page : t ≡ poll_clusters (λ _. end) → IsPoll t

module _ (kept : World) where
  abbrev pub Rests : World → Type 0
  Rests w = still w ≡ kept

  Rests-api_call :
      {A : Type 0} (m : Async A) (key : Text)
      → KeepsAsync Rests AnyRequest m
      → KeepsAsync Rests AnyRequest (api_call m key)
  Rests-api_call m key km =
      keeps_api_call Rests AnyRequest (λ _ w p. p) (λ _ w p. p) (λ _ w p. p) m key km

  -- What is done with the answer to an API call.
  Rests-fetch :
      {A : Type 0} (m : Async A) (key : Text) (f : A → World → World)
      → KeepsAsync Rests AnyRequest m
      → ((a : A) (w : World) → Rests w → Rests (f a w))
      → KeepsAsync Rests AnyRequest (api_call m key >>= λ a. modify (f a))
  Rests-fetch m key f km kf =
      keeps_bind Rests AnyRequest (api_call m key) (λ a. modify (f a)) (Rests-api_call m key km)
        (λ a. keeps_modify Rests AnyRequest (f a) (kf a))

  Rests-when_named :
      (body : Text → Async (Unit {0}))
      → ((n : Text) → KeepsAsync Rests AnyRequest (body n))
      → KeepsAsync Rests AnyRequest (when_named body)
  Rests-when_named body kb k h = reads (λ w p.
      keeps_if Rests AnyRequest (is_blank (cluster_name_of w)) (pure tt) (body (cluster_name_of w))
        (λ k' h'. h' (resolved tt)) (kb (cluster_name_of w)) k h)

  Rests-update_cluster_node_vm_statuses :
      (key : Text) → KeepsAsync Rests AnyRequest (update_cluster_node_vm_statuses key)
  unfolding update_cluster_node_vm_statuses
  Rests-update_cluster_node_vm_statuses key =
      Rests-when_named _ (λ _. Rests-fetch _ key _ (λ k h. reads (λ w p. asks tt h)) (λ a w p. p))

  Rests-update_cluster_kube_statuses :
      (key : Text) → KeepsAsync Rests AnyRequest (update_cluster_kube_statuses key)
  unfolding update_cluster_kube_statuses
  Rests-update_cluster_kube_statuses key =
      Rests-when_named _ (λ _. Rests-fetch _ key _ (λ k h. reads (λ w p. asks tt h)) (λ a w p. p))

  Rests-update_apps_status : KeepsAsync Rests AnyRequest update_apps_status
  unfolding update_apps_status
  Rests-update_apps_status =
      Rests-when_named _ (λ _. Rests-fetch _ _ _ (λ k h. reads (λ w p. asks tt h)) (λ a w p. p))

  Rests-fetch_nodes : (key : Text) → KeepsAsync Rests AnyRequest (fetch_nodes key)
  Rests-fetch_nodes key = Rests-fetch _ key _ (λ k h. reads (λ w p. asks tt h)) (λ a w p. p)

  Rests-fetch_if_locked :
      (key : Text) (nodes : List ClusterNode)
      → KeepsAsync Rests AnyRequest (fetch_if_locked key nodes)
  unfolding any_lock
  Rests-fetch_if_locked key [] k h = h (rejected type_error)
  Rests-fetch_if_locked key (n ∷ ns) k h = on_lock (reduce_locks n.lock ns)
    where
      on_lock :
          (l : Option ClusterNodeLock)
          → Keeps Rests AnyRequest
              ((elim l as (λ _. Async (Unit {0})) [ none ↦ pure tt | some _ ↦ fetch_nodes key ]) k)
      on_lock none = h (resolved tt)
      on_lock (some l) = Rests-fetch_nodes key k h

  Rests-update_nodes_if_there_is_any_lock :
      (key : Text) → KeepsAsync Rests AnyRequest (update_nodes_if_there_is_any_lock key)
  unfolding update_nodes_if_there_is_any_lock
  Rests-update_nodes_if_there_is_any_lock key = Rests-when_named _ (λ _ k h. reads (λ w p.
      keeps_bind Rests AnyRequest (defined w.management.cluster.nodes) (fetch_if_locked key)
        (keeps_defined Rests AnyRequest w.management.cluster.nodes) (Rests-fetch_if_locked key) k
        h))

  Rests-poll_nodes : (a b c : Text) → KeepsAsync Rests AnyRequest (poll_nodes a b c)
  unfolding poll_nodes
  Rests-poll_nodes a b c =
      keeps_bind Rests AnyRequest (update_cluster_node_vm_statuses a) _
        (Rests-update_cluster_node_vm_statuses a)
        (λ _.
          keeps_bind Rests AnyRequest (update_cluster_kube_statuses b) _
            (Rests-update_cluster_kube_statuses b) (λ _. Rests-update_nodes_if_there_is_any_lock c))

  Rests-poll_logs : KeepsAsync Rests AnyRequest poll_logs
  unfolding poll_logs load_logs
  Rests-poll_logs k h = reads (λ w p. Rests-fetch _ _ _ (λ k' h'. asks tt h') (λ a w' p'. p') k h)

  Rests-poll_clusters : KeepsAsync Rests AnyRequest poll_clusters
  unfolding poll_clusters load_clusters
  Rests-poll_clusters = Rests-fetch _ _ _ (λ k h. asks tt h) (λ a w p. p)

  IsPoll-Keeps : (t : Task) → IsPoll t → Keeps Rests AnyRequest t
  IsPoll-Keeps t (nodes_page a b c e) =
      subst (Keeps Rests AnyRequest) (sym e) (Rests-poll_nodes a b c (λ _. end) (λ _. ends))
  IsPoll-Keeps t (apps_page e) =
      subst (Keeps Rests AnyRequest) (sym e) (Rests-update_apps_status (λ _. end) (λ _. ends))
  IsPoll-Keeps t (logs_page e) =
      subst (Keeps Rests AnyRequest) (sym e) (Rests-poll_logs (λ _. end) (λ _. ends))
  IsPoll-Keeps t (list_page e) =
      subst (Keeps Rests AnyRequest) (sym e) (Rests-poll_clusters (λ _. end) (λ _. ends))

pub polls-IsKept :
    {S : Type 0} (serve : Server S) (w : World) (s : S) (y : System S)
    → Reaches serve IsPoll (idle w s) y
    → IsKept (Rests (still w)) AnyRequest y
polls-IsKept serve w s y r =
    Reaches-IsKept serve IsPoll (Rests (still w)) AnyRequest (IsPoll-Keeps (still w)) r (refl, tt)

-- Whatever polls are made, at any time and as often as one likes, and in whatever order the server
-- answers or refuses them: the page keeps everything but the statuses, the nodes and the logs of the
-- open cluster, the list of clusters, the indicators and the stored error. So the name, the apps and
-- the resources of the open cluster, the wizard and the dialogs stay as they are.
pub polls-still :
    {S : Type 0} (serve : Server S) (w : World) (s : S) (y : System S)
    → Reaches serve IsPoll (idle w s) y
    → still y.world ≡ still w
polls-still serve w s y r = (polls-IsKept serve w s y r).0
