-- ===== src/Management/Polling.antt =====
-- What the loading and polling methods of cluster-management-store.ts leave behind.
use makoon.Prelude.{
  ◌≡◌, refl, true, false, Option, none, some, List, [], ◌∷◌, Text, All, if◌then◌else◌, is_empty,
}
use makoon.Model.{Cluster, ClusterNode, ClusterNodeLock}
use makoon.Api.{get_cluster}
use makoon.World.{World, type_error, ClusterManagementStore}
use makoon.Async.{Outcome, resolved, rejected, Task, Async, gets, ◌>>=◌}
use makoon.Async.Run.{done, Server, run, Settles, Settles-call, after_call}
use makoon.Management.Actions.{
  cluster_name_of, is_blank, defined, loaded, loading_cluster, load_project,
  update_cluster_node_vm_statuses, update_cluster_kube_statuses, reduce_locks,
  update_nodes_if_there_is_any_lock, update_apps_status,
}

abbrev pub on_management : (ClusterManagementStore → ClusterManagementStore) → World → World
on_management f w = record w { management = f w.management }

-- The state after an answer: `f` is applied to what was resolved.
abbrev pub with_answer :
    {A : Type 0} → (A → ClusterManagementStore → ClusterManagementStore) → Outcome A → World → World
with_answer f (resolved a) w = on_management (f a) w
with_answer f (rejected e) w = w

-- A field that is defined is read, and its value is used.
pub run_found :
    {S A B : Type 0} (serve : Server S) (g : World → Option A) (a : A) (f : A → Async B) (w : World)
    (s : S) (k : Outcome B → Task)
    → g w ≡ some a
    → run serve ((gets g >>= λ found. defined found >>= f) k) w s ≡ run serve (f a k) w s
unfolding run
run_found serve g a f w s k h = rw (run, h) refl

-- `loadProject` opens the cluster that the server returns, with no statuses yet, or leaves the open
-- cluster as it is and fails with the server's error.
pub load_project-Settles :
    {S : Type 0} (serve : Server S) (name : Text) (w : World) (s s' : S) (o : Outcome Cluster)
    → serve (get_cluster name) s ≡ (o, s')
    → Settles serve
        (load_project name)
        w
        s
        (done o)
        (with_answer loaded o (after_call loading_cluster o w))
        s'
unfolding load_project run
load_project-Settles serve name w s s' (resolved c) e k =
    rw (Settles-call serve (get_cluster name) loading_cluster w s (resolved c) s' e)
load_project-Settles serve name w s s' (rejected f) e k =
    rw (Settles-call serve (get_cluster name) loading_cluster w s (rejected f) s' e)

-- While no cluster is open, the pollers ask the server nothing and change nothing.
pub pollers_idle :
    {S : Type 0} (serve : Server S) (key : Text) (w : World) (s : S)
    → is_blank (cluster_name_of w) ≡ true
    → Settles serve (update_cluster_node_vm_statuses key) w s (resolved tt) w s
      × Settles serve (update_cluster_kube_statuses key) w s (resolved tt) w s
      × Settles serve (update_nodes_if_there_is_any_lock key) w s (resolved tt) w s
      × Settles serve update_apps_status w s (resolved tt) w s
unfolding run update_cluster_node_vm_statuses update_cluster_kube_statuses
    update_nodes_if_there_is_any_lock update_apps_status
pollers_idle serve key w s blank =
    ((λ k. rw (run, blank)), (λ k. rw (run, blank)), (λ k. rw (run, blank)), (λ k. rw (run, blank)))

-- `reduce` finds no lock exactly where no node is locked.
reduce_locks-none :
    (acc : Option ClusterNodeLock) (ns : List ClusterNode)
    → acc ≡ none
    → All (λ n. n.lock ≡ none) ns
    → reduce_locks acc ns ≡ none
unfolding reduce_locks
reduce_locks-none acc [] e _ = e
reduce_locks-none none (n ∷ ns) e (h, hs) = reduce_locks-none n.lock ns h hs
reduce_locks-none (some l) (n ∷ ns) e _ = cc

pub reduce_locks-some :
    (l : ClusterNodeLock) (ns : List ClusterNode) → reduce_locks (some l) ns ≡ some l
unfolding reduce_locks
reduce_locks-some l [] = refl
reduce_locks-some l (n ∷ ns) = reduce_locks-some l ns

-- With an open cluster that has no locked node, the poll for nodes asks the server nothing and
-- changes nothing; it fails with a `TypeError` where the cluster has no node at all.
pub update_nodes_if_there_is_any_lock_quiet :
    {S : Type 0} (serve : Server S) (key : Text) (w : World) (s : S) (nodes : List ClusterNode)
    → is_blank (cluster_name_of w) ≡ false
    → w.management.cluster.nodes ≡ some nodes
    → All (λ n. n.lock ≡ none) nodes
    → Settles serve
        (update_nodes_if_there_is_any_lock key)
        w
        s
        (if is_empty nodes then rejected type_error else resolved tt)
        w
        s
unfolding run update_nodes_if_there_is_any_lock
update_nodes_if_there_is_any_lock_quiet serve key w s [] named e _ k = rw (run, named) (rw (run, e))
update_nodes_if_there_is_any_lock_quiet serve key w s (n ∷ ns) named e (h, hs) k =
    rw (run, named) (rw (run, e) (rw (reduce_locks-none n.lock ns h hs)))
