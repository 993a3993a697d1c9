-- ===== src/Async/Pool/Races.antt =====
-- Two methods of cluster-management-store.ts at once.
use mathlib.Core.Path.{subst}
use makoon.Prelude.{
  ◌≡◌, ◌∙◌, refl, sym, ap, ◌++◌, false, Option, none, some, List, [], ◌∷◌, Text, is_empty,
}
use makoon.Model.{Cluster, ClusterNode, ClusterNodeLock}
use makoon.Api.{get_cluster, get_cluster_nodes}
use makoon.World.{World}
use makoon.World.Loaders.{status, status-stop_processing}
use makoon.Async.{Task, Outcome, resolved, end, Async, gets, ◌>>=◌}
use makoon.Async.Call.{api_call, wrap_with_processing_indicator}
use makoon.Async.Run.{Server}
use makoon.Async.Pool.{System, idle, start, deliver, advance}
use makoon.Management.Actions.{
  cluster_name_of, is_blank, defined, loading_cluster, load_project, fetch_nodes, fetch_if_locked,
  update_nodes_if_there_is_any_lock, any_lock, reduce_locks,
}
use makoon.Management.Polling.{reduce_locks-some}

advance_found :
    {A B : Type 0} (g : World → Option A) (a : A) (f : A → Async B) (w : World)
    (k : Outcome B → Task)
    → g w ≡ some a
    → advance ((gets g >>= λ found. defined found >>= f) k) w ≡ advance (f a k) w
unfolding advance
advance_found g a f w k h = rw (advance, h) refl

-- With an open cluster whose first node is locked, the poll for nodes goes on to its request.
advance-update_nodes_if_there_is_any_lock :
    (key : Text) (l : ClusterNodeLock) (node : ClusterNode) (nodes : List ClusterNode) (w : World)
    → is_blank (cluster_name_of w) ≡ false
    → w.management.cluster.nodes ≡ some (node ∷ nodes)
    → node.lock ≡ some l
    → advance (update_nodes_if_there_is_any_lock key (λ _. end)) w
      ≡ advance (fetch_nodes key (λ _. end)) w
unfolding advance update_nodes_if_there_is_any_lock any_lock reduce_locks
advance-update_nodes_if_there_is_any_lock key l node nodes w named h lock =
    let found : reduce_locks node.lock nodes ≡ some l = rw lock (reduce_locks-some l nodes) in
    rw (advance, named) refl
    ∙ advance_found (λ v. v.management.cluster.nodes) (node ∷ nodes) (fetch_if_locked key) w
        (λ _. end) h
    ∙ rw (advance, found) refl

module _ {S : Type 0} (serve : Server S) where
  -- Two clusters are opened one after the other, and the answer for the first comes last: then the
  -- page shows the first one. After the answer that came first the indicator is off, although the
  -- other one is still waited for.
  pub load_project_race :
      (a b : Text) (first second : Cluster) (w : World) (s s' s'' : S)
      → serve (get_cluster b) s ≡ (resolved second, s')
      → serve (get_cluster a) s' ≡ (resolved first, s'')
      → let x = start (load_project b (λ _. end)) (start (load_project a (λ _. end)) (idle w s)) in
        let y = deliver serve 1 x in
        let z = deliver serve 0 y in
        (y.world.management.cluster ≡ second)
        × (is_empty y.waiting ≡ false)
        × (status loading_cluster y.world.indicator ≡ none)
        × (z.world.management.cluster ≡ first)
        × (z.waiting ≡ [])
  unfolding load_project advance api_call wrap_with_processing_indicator
  load_project_race a b first second w s s' s'' e f =
      rw (advance, e)
        (rw (advance, f)
          (refl, refl, status-stop_processing loading_cluster loading_cluster _, refl, refl))

  -- The poll for nodes of an open cluster, whose first node is locked, waits for its answer while
  -- another cluster is opened: the late answer puts the nodes of the first cluster into the second.
  pub update_nodes_race :
      (key b : Text) (l : ClusterNodeLock) (node : ClusterNode) (nodes old : List ClusterNode)
      (second : Cluster) (w : World) (s s' s'' : S)
      → is_blank (cluster_name_of w) ≡ false
      → w.management.cluster.nodes ≡ some (node ∷ nodes)
      → node.lock ≡ some l
      → serve (get_cluster b) s ≡ (resolved second, s')
      → serve (get_cluster_nodes (cluster_name_of w)) s' ≡ (resolved old, s'')
      → let x =
          start
            (load_project b (λ _. end))
            (start (update_nodes_if_there_is_any_lock key (λ _. end)) (idle w s)) in
        let z = deliver serve 0 (deliver serve 1 x) in
        (z.world.management.cluster ≡ record second { nodes = some old }) × (z.waiting ≡ [])
  unfolding load_project advance api_call
  update_nodes_race key b l node nodes old second w s s' s'' named h lock e f =
      subst Mixed (sym polled) (rw (advance, e) (rw (advance, f) (refl, refl)))
    where
      Mixed : System S → Type 0
      Mixed y =
          let z = deliver serve 0 (deliver serve 1 (start (load_project b (λ _. end)) y)) in
          (z.world.management.cluster ≡ record second { nodes = some old }) × (z.waiting ≡ [])

      polled :
          start (update_nodes_if_there_is_any_lock key (λ _. end)) (idle w s)
          ≡ start (fetch_nodes key (λ _. end)) (idle w s)
      polled =
          ap (λ (p : World × List Task). record { world = p.0; server = s; waiting = p.1 ++ [] })
            (advance-update_nodes_if_there_is_any_lock key l node nodes w named h lock)
