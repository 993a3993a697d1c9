-- ===== src/Management/Members/Runs.antt =====
-- What the methods of cluster-management-store.ts on nodes leave behind.
use makoon.Prelude.{◌≡◌, ◌∙◌, refl, ℕ, Option, none, some, List, Text, text_eq}
use makoon.Js.Array.{push}
use makoon.Model.{ClusterNode, change_resources}
use makoon.Api.{delete_node_from_cluster, change_node_resources, add_node_to_cluster}
use makoon.World.{World, ClusterManagementStore, type_error}
use makoon.Async.{Outcome, resolved, rejected}
use makoon.Async.Run.{done, Server, run, Settles}
use makoon.Management.Actions.{cluster_name_of, set_nodes}
use makoon.Management.Members.{
  index_of_name, put_node, node_at, lock_found, lock_and_ask, delete_node_from_cluster_by_name,
  change_resources_of_node, add_node,
}
use makoon.Management.Polling.{on_management, with_answer, run_found}

put_node-cluster_name :
    (i : Option ℕ) (node : ClusterNode) (nodes : List ClusterNode) (m : ClusterManagementStore)
    → (put_node i node nodes m).cluster.cluster_name ≡ m.cluster.cluster_name
put_node-cluster_name none node nodes m = refl
put_node-cluster_name (some i) node nodes m = refl

module _ {S : Type 0} (serve : Server S) where
  -- `changeNodeResources` locks the node that it finds under the name before it asks the server,
  -- and the node stays locked whatever the answer.
  pub change_resources_of_node_locks :
      (name : Text) (cores memory : ℕ) (nodes : List ClusterNode) (node : ClusterNode) (w : World)
      (s s' : S) (o : Outcome (Unit {0}))
      → w.management.cluster.nodes ≡ some nodes
      → node_at (index_of_name name nodes) nodes w.management ≡ some node
      → serve
          (change_node_resources
            (cluster_name_of w)
            name
            (record { cores = cores; memory = memory }))
          s
        ≡ (o, s')
      → Settles serve
          (change_resources_of_node name cores memory)
          w
          s
          o
          (on_management
            (put_node
              (index_of_name name nodes)
              (record node { lock = some change_resources })
              nodes)
            w)
          s'
  unfolding change_resources_of_node run
  change_resources_of_node_locks name cores memory nodes node w s s' o h a e k =
      run_found serve (λ w. w.management.cluster.nodes) nodes (lock_found name cores memory) w s k h
      ∙ run_found serve (λ w. node_at (index_of_name name nodes) nodes w.management) node
          (lock_and_ask name cores memory nodes) w s k a
      ∙ rw
          (
            run,
            put_node-cluster_name (index_of_name name nodes)
                (record node { lock = some change_resources }) nodes w.management,
          )
          (rw (run, e) refl)

  -- Where it finds no node under the name, `changeNodeResources` fails with a `TypeError`, sends
  -- nothing and changes nothing.
  pub change_resources_of_node_unknown :
      (name : Text) (cores memory : ℕ) (nodes : List ClusterNode) (w : World) (s : S)
      → w.management.cluster.nodes ≡ some nodes
      → node_at (index_of_name name nodes) nodes w.management ≡ none
      → Settles serve (change_resources_of_node name cores memory) w s (rejected type_error) w s
  unfolding change_resources_of_node run
  change_resources_of_node_unknown name cores memory nodes w s h a k =
      run_found serve (λ w. w.management.cluster.nodes) nodes (lock_found name cores memory) w s k h
      ∙ rw (run, a) refl

  -- With loaded nodes, `deleteNode` puts the node the server answers with in the place of the named
  -- one, and where no node has the name it writes the property "-1" and leaves the nodes alone; a
  -- refusal changes nothing.
  pub delete_node_from_cluster_by_name-Settles :
      (name : Text) (nodes : List ClusterNode) (w : World) (s s' : S) (o : Outcome ClusterNode)
      → w.management.cluster.nodes ≡ some nodes
      → serve (delete_node_from_cluster (cluster_name_of w) name) s ≡ (o, s')
      → Settles serve
          (delete_node_from_cluster_by_name name)
          w
          s
          (done o)
          (with_answer (λ node. put_node (index_of_name name nodes) node nodes) o w)
          s'
  unfolding delete_node_from_cluster_by_name run
  delete_node_from_cluster_by_name-Settles name nodes w s s' (resolved n) h e k =
      rw (run, e) (rw (run, h) refl)
  delete_node_from_cluster_by_name-Settles name nodes w s s' (rejected f) h e k = rw (run, e) refl

  -- With loaded nodes, `addNode` puts the node the server answers with behind the others; a refusal
  -- changes nothing.
  pub add_node-Settles :
      (node : ClusterNode) (nodes : List ClusterNode) (w : World) (s s' : S)
      (o : Outcome ClusterNode)
      → w.management.cluster.nodes ≡ some nodes
      → serve (add_node_to_cluster (cluster_name_of w) node) s ≡ (o, s')
      → Settles serve
          (add_node node)
          w
          s
          (done o)
          (with_answer (λ n. set_nodes (push nodes n)) o w)
          s'
  unfolding add_node run
  add_node-Settles node nodes w s s' (resolved n) h e k = rw (run, e) (rw (run, h) refl)
  add_node-Settles node nodes w s s' (rejected f) h e k = rw (run, e) refl
