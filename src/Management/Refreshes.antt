-- ===== src/Management/Refreshes.antt =====
-- The methods of cluster-management-store.ts that refresh a list from the server: the statuses of
-- the Helm apps, and the nodes while one of them is locked.
use makoon.Prelude.{
  ◌≡◌, ◌∙◌, refl, inl, inr, Option-cases, true, false, Option, none, some, List, [], ◌∷◌, arith,
  Text, Any, text_eq,
}
use makoon.Model.{HelmApp, ClusterNode, ClusterNodeLock, AppStatus}
use makoon.Api.{get_cluster_nodes, apps_status, save_helm_app, install_helm_app}
use makoon.World.{World, Failure, ClusterManagementStore}
use makoon.Async.{Outcome, resolved, rejected, Task, end, request, gets, ◌>>=◌}
use makoon.Async.Run.{done, Server, run, Settles, Settles-api_call, after_call}
use makoon.Management.Actions.{
  cluster_name_of, is_blank, is_locked, set_fresh_nodes, fetch_nodes, fetch_if_locked, any_lock,
  loading_indicator_update_helm_charts_status, reduce_locks, update_nodes_if_there_is_any_lock,
  update_apps_status,
}
use makoon.Management.Apps.{
  push_app, add_helm_chart, install_helm_chart_without_handle_global_error_handling,
}
use makoon.Management.Polling.{on_management, with_answer, run_found, reduce_locks-some}

abbrev pub set_apps_status : List AppStatus → ClusterManagementStore → ClusterManagementStore
set_apps_status result m = record m { helm_apps_status = result }

-- The page after the answer to a request for the statuses.
abbrev pub refreshed : Outcome (List AppStatus) → World → World
refreshed o w =
    with_answer set_apps_status o (after_call loading_indicator_update_helm_charts_status o w)

-- The outcome of a block with a `finally`: the error of the `finally` wins.
abbrev pub finally : {A B : Type 0} → Outcome A → Outcome B → Outcome A
finally o (resolved _) = o
finally o (rejected e) = rejected e

-- `reduce` finds a lock where some node is locked.
is_locked-some : (n : ClusterNode) → is_locked n ≡ true → (l : ClusterNodeLock) × (n.lock ≡ some l)
is_locked-some n h = elim (Option-cases n.lock) [
  | inl e ↦ absurd (ground (arith, e))
  | inr found ↦ found
]

reduce_locks_found :
    (acc : Option ClusterNodeLock) (ns : List ClusterNode)
    → Any (λ n. is_locked n ≡ true) ns
    → (l : ClusterNodeLock) × (reduce_locks acc ns ≡ some l)
unfolding reduce_locks
reduce_locks_found acc [] h = absurd h
reduce_locks_found (some l) (n ∷ ns) h = (l, reduce_locks-some l (n ∷ ns))
reduce_locks_found none (n ∷ ns) (inl h) =
    let (l, e) = is_locked-some n h in (l, rw e (reduce_locks-some l ns))
reduce_locks_found none (n ∷ ns) (inr h) = reduce_locks_found n.lock ns h

module _ {S : Type 0} (serve : Server S) where
  pub update_apps_status-Settles :
      (w : World) (s s' : S) (o : Outcome (List AppStatus))
      → is_blank (cluster_name_of w) ≡ false
      → serve (apps_status (cluster_name_of w)) s ≡ (o, s')
      → Settles serve update_apps_status w s (done o) (refreshed o w) s'
  unfolding update_apps_status run
  update_apps_status-Settles w s s' (resolved r) named e k =
      rw (run, named)
        (rw
          (Settles-api_call serve (gets cluster_name_of >>= λ name. request (apps_status name))
            loading_indicator_update_helm_charts_status w s (resolved r) s'
            (λ k'. rw (run, e) refl))
          refl)
  update_apps_status-Settles w s s' (rejected f) named e k =
      rw (run, named)
        (rw
          (Settles-api_call serve (gets cluster_name_of >>= λ name. request (apps_status name))
            loading_indicator_update_helm_charts_status w s (rejected f) s'
            (λ k'. rw (run, e) refl))
          refl)

  fetch_nodes-Settles :
      (key : Text) (w : World) (s s' : S) (o : Outcome (List ClusterNode))
      → serve (get_cluster_nodes (cluster_name_of w)) s ≡ (o, s')
      → Settles serve
          (fetch_nodes key)
          w
          s
          (done o)
          (with_answer set_fresh_nodes o (after_call key o w))
          s'
  unfolding run
  fetch_nodes-Settles key w s s' (resolved r) e k =
      rw
        (Settles-api_call serve (gets cluster_name_of >>= λ name. request (get_cluster_nodes name))
          key w s (resolved r) s' (λ k'. rw (run, e) refl))
        refl
  fetch_nodes-Settles key w s s' (rejected f) e k =
      rw
        (Settles-api_call serve (gets cluster_name_of >>= λ name. request (get_cluster_nodes name))
          key w s (rejected f) s' (λ k'. rw (run, e) refl))
        refl

  fetch_found :
      (key : Text) (n : ClusterNode) (ns : List ClusterNode) (w : World) (s : S)
      (l : ClusterNodeLock) (k : Outcome (Unit {0}) → Task)
      → reduce_locks none (n ∷ ns) ≡ some l
      → run serve (fetch_if_locked key (n ∷ ns) k) w s ≡ run serve (fetch_nodes key k) w s
  unfolding any_lock run reduce_locks
  fetch_found key n ns w s l k found = rw (run, found) refl

  -- With an open cluster that has a locked node, the poll for nodes takes over the server's nodes,
  -- or leaves the list as it is and fails with the server's error.
  pub update_nodes_if_there_is_any_lock-Settles :
      (key : Text) (node : ClusterNode) (nodes : List ClusterNode) (w : World) (s s' : S)
      (o : Outcome (List ClusterNode))
      → is_blank (cluster_name_of w) ≡ false
      → w.management.cluster.nodes ≡ some (node ∷ nodes)
      → Any (λ n. is_locked n ≡ true) (node ∷ nodes)
      → serve (get_cluster_nodes (cluster_name_of w)) s ≡ (o, s')
      → Settles serve
          (update_nodes_if_there_is_any_lock key)
          w
          s
          (done o)
          (with_answer set_fresh_nodes o (after_call key o w))
          s'
  unfolding update_nodes_if_there_is_any_lock run reduce_locks
  update_nodes_if_there_is_any_lock-Settles key node nodes w s s' o named h locked e k =
      let (l, found) = reduce_locks_found none (node ∷ nodes) locked in
      rw (run, named) refl
      ∙ run_found serve (λ w. w.management.cluster.nodes) (node ∷ nodes) (fetch_if_locked key) w s k
          h
      ∙ fetch_found key node nodes w s l k found
      ∙ fetch_nodes-Settles key w s s' o e k

  -- With an open cluster, an installation refreshes the statuses of the apps whatever its outcome,
  -- which is its own unless the refresh fails: then the error of the refresh stands in its place.
  pub install_helm_chart_refreshes :
      (id : Text) (w : World) (s s' s'' : S) (o : Outcome (Unit {0})) (r : Outcome (List AppStatus))
      → is_blank (cluster_name_of w) ≡ false
      → serve (install_helm_app (cluster_name_of w) id) s ≡ (o, s')
      → serve (apps_status (cluster_name_of w)) s' ≡ (r, s'')
      → Settles serve
          (install_helm_chart_without_handle_global_error_handling id)
          w
          s
          (finally o r)
          (refreshed r w)
          s''
  unfolding install_helm_chart_without_handle_global_error_handling run
  install_helm_chart_refreshes id w s s' s'' o (resolved a) named e f k =
      rw (run, e) (rw (update_apps_status-Settles w s' s'' (resolved a) named f) refl)
  install_helm_chart_refreshes id w s s' s'' o (rejected a) named e f k =
      rw (run, e) (rw (update_apps_status-Settles w s' s'' (rejected a) named f) refl)

  -- With an open cluster, and where the server takes the app, `addHelmChart` puts it at the end of
  -- the list, under the id the server gave it, and then asks for the statuses in a call of its own,
  -- of which it keeps what the server answers.
  pub add_helm_chart_runs :
      (key : Text) (app : HelmApp) (id : Text) (w : World) (s s' s'' : S)
      (r : Outcome (List AppStatus))
      → is_blank (cluster_name_of w) ≡ false
      → serve (save_helm_app (cluster_name_of w) app) s ≡ (resolved id, s')
      → serve (apps_status (cluster_name_of w)) s' ≡ (r, s'')
      → run serve (add_helm_chart key app (λ _. end)) w s ≡ (
        refreshed r (
            on_management
              (push_app (record app { id = some id }))
              (after_call key (resolved id) w)),
        s'',
      )
  unfolding add_helm_chart run
  add_helm_chart_runs key app id w s s' s'' r named e f =
      let w' =
        on_management (push_app (record app { id = some id })) (after_call key (resolved id) w) in
      rw
        (Settles-api_call serve (gets cluster_name_of >>= λ name. request (save_helm_app name app))
          key w s (resolved id) s' (λ k'. rw (run, e) refl))
        (update_apps_status-Settles w' s' s'' r named f (λ _. end))

  -- Where the server refuses the app, `addHelmChart` changes no list and asks for no status.
  pub add_helm_chart_refused :
      (key : Text) (app : HelmApp) (f : Failure) (w : World) (s s' : S)
      → serve (save_helm_app (cluster_name_of w) app) s ≡ (rejected f, s')
      → let o : Outcome Text = rejected f in
        Settles serve (add_helm_chart key app) w s o (after_call key o w) s'
  unfolding add_helm_chart run
  add_helm_chart_refused key app f w s s' e k =
      rw
        (Settles-api_call serve (gets cluster_name_of >>= λ name. request (save_helm_app name app))
          key w s (rejected f) s' (λ k'. rw (run, e) refl))
        refl
