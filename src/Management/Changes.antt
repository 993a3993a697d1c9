-- ===== src/Management/Changes.antt =====
-- What the methods of cluster-management-store.ts leave behind when they change Helm apps and
-- Kubernetes resources: which change the list at once, and which wait for the server.
use makoon.Prelude.{◌≡◌, refl, some, List, [], ◌∷◌, map, Text, text_eq}
use makoon.Model.{HelmApp, ClusterResource}
use makoon.Api.{
  update_helm_app, delete_helm_app, save_cluster_resource, update_cluster_resource,
  delete_cluster_resource,
}
use makoon.World.{World}
use makoon.Async.{Task, Outcome, resolved, rejected, request, gets, ◌>>=◌}
use makoon.Async.Call.{api_call, wrap_with_processing_indicator}
use makoon.Async.Call
use makoon.Async.Pool.{idle, start, advance, asked}
use makoon.Async.Run.{Server, run, Settles, Settles-api_call, after_call}
use makoon.Management.Actions.{
  cluster_name_of, set_helm_apps, set_resources, loading_indicator_delete_helm_chart,
  loading_indicator_delete_k8s_resource,
}
use makoon.Management.Apps.{
  replace_app, update_helm_chart, without_app, delete_helm_chart, push_resource, add_k8s_resources,
  replace_resource, update_k8s_resources, without_resource, delete_k8s_resources,
}
use makoon.Management.Polling.{on_management, with_answer}

module _ {S : Type 0} (serve : Server S) where
  -- The run of `updateHelmChart`.
  pub update_helm_chart-Settles :
      (key : Text) (app : HelmApp) (apps : List HelmApp) (w : World) (s s' : S)
      (o : Outcome (Unit {0}))
      → w.management.cluster.helm_apps ≡ some apps
      → serve (update_helm_app (cluster_name_of w) app) s ≡ (o, s')
      → Settles serve
          (update_helm_chart key app)
          w
          s
          o
          (after_call key o (on_management (set_helm_apps (replace_app app apps)) w))
          s'
  unfolding update_helm_chart run
  update_helm_chart-Settles key app apps w s s' o h e k =
      rw (run, h)
        (Settles-api_call serve (do name ← gets cluster_name_of; request (update_helm_app name app))
          key (on_management (set_helm_apps (replace_app app apps)) w) s o s' (λ k'. rw (run, e)) k)

  -- With loaded apps, once `updateHelmChart` has been called and before its request is answered, the page
  -- has the edited app in its list and the indicator on, and waits for that one request. Whatever the
  -- answer, the method is settled with it and the list keeps the app; a refusal also stores its error.
  pub update_helm_chart_optimistic :
      (key : Text) (app : HelmApp) (apps : List HelmApp) (w : World) (s s' : S)
      (o : Outcome (Unit {0})) (k : Outcome (Unit {0}) → Task)
      → w.management.cluster.helm_apps ≡ some apps
      → serve (update_helm_app (cluster_name_of w) app) s ≡ (o, s')
      → let edited = on_management (set_helm_apps (replace_app app apps)) w in
        let x = start (update_helm_chart key app k) (idle w s) in
        (x.world ≡ Call.start key edited)
        × (map asked x.waiting ≡ some (update_helm_app (cluster_name_of w) app) ∷ [])
        × (run serve (update_helm_chart key app k) w s
            ≡ run serve (k o) (after_call key o edited) s')
  unfolding update_helm_chart advance api_call wrap_with_processing_indicator
  update_helm_chart_optimistic key app apps w s s' o k h e = (
    rw (advance, h) refl,
    rw (advance, h) refl,
    update_helm_chart-Settles key app apps w s s' o h e k,
  )

  -- With loaded resources, `updateK8sResources` puts the edited one into the list before it asks
  -- the server, and the list keeps it whatever the answer.
  pub update_k8s_resources_optimistic :
      (key : Text) (kr : ClusterResource) (rs : List ClusterResource) (w : World) (s s' : S)
      (o : Outcome (Unit {0}))
      → w.management.cluster.cluster_resources ≡ some rs
      → serve (update_cluster_resource (cluster_name_of w) kr) s ≡ (o, s')
      → Settles serve
          (update_k8s_resources key kr)
          w
          s
          o
          (after_call key o (on_management (set_resources (replace_resource kr rs)) w))
          s'
  unfolding update_k8s_resources run
  update_k8s_resources_optimistic key kr rs w s s' o h e k =
      rw (run, h)
        (Settles-api_call serve
          (do name ← gets cluster_name_of; request (update_cluster_resource name kr)) key
          (on_management (set_resources (replace_resource kr rs)) w) s o s' (λ k'. rw (run, e)) k)

  -- With loaded apps, `deleteHelmChart` takes the app out of the list if the server agrees, and
  -- leaves the list as it was, with the error stored, if the server refuses.
  pub delete_helm_chart-Settles :
      (id : Text) (apps : List HelmApp) (w : World) (s s' : S) (o : Outcome (Unit {0}))
      → w.management.cluster.helm_apps ≡ some apps
      → serve (delete_helm_app (cluster_name_of w) id) s ≡ (o, s')
      → Settles serve
          (delete_helm_chart id)
          w
          s
          o
          (with_answer
            (λ _. set_helm_apps (without_app id apps))
            o
            (after_call loading_indicator_delete_helm_chart o w))
          s'
  unfolding delete_helm_chart run
  delete_helm_chart-Settles id apps w s s' (resolved u) h e k =
      rw
        (Settles-api_call serve (do name ← gets cluster_name_of; request (delete_helm_app name id))
          loading_indicator_delete_helm_chart w s (resolved u) s' (λ k'. rw (run, e)))
        (rw (run, h))
  delete_helm_chart-Settles id apps w s s' (rejected f) h e k =
      rw
        (Settles-api_call serve (do name ← gets cluster_name_of; request (delete_helm_app name id))
          loading_indicator_delete_helm_chart w s (rejected f) s' (λ k'. rw (run, e)))
        refl

  -- With loaded resources, `deleteK8sResources` takes the resource out of the list if the server
  -- agrees, and leaves the list as it was, with the error stored, if the server refuses.
  pub delete_k8s_resources-Settles :
      (id : Text) (rs : List ClusterResource) (w : World) (s s' : S) (o : Outcome (Unit {0}))
      → w.management.cluster.cluster_resources ≡ some rs
      → serve (delete_cluster_resource (cluster_name_of w) id) s ≡ (o, s')
      → Settles serve
          (delete_k8s_resources id)
          w
          s
          o
          (with_answer
            (λ _. set_resources (without_resource id rs))
            o
            (after_call loading_indicator_delete_k8s_resource o w))
          s'
  unfolding delete_k8s_resources run
  delete_k8s_resources-Settles id rs w s s' (resolved u) h e k =
      rw
        (Settles-api_call serve
          (do name ← gets cluster_name_of; request (delete_cluster_resource name id))
          loading_indicator_delete_k8s_resource w s (resolved u) s' (λ k'. rw (run, e)))
        (rw (run, h))
  delete_k8s_resources-Settles id rs w s s' (rejected f) h e k =
      rw
        (Settles-api_call serve
          (do name ← gets cluster_name_of; request (delete_cluster_resource name id))
          loading_indicator_delete_k8s_resource w s (rejected f) s' (λ k'. rw (run, e)))
        refl

  -- `addK8sResources` puts the resource at the end of the list, under the id the server gave it, or
  -- changes no list where the server refuses.
  pub add_k8s_resources-Settles :
      (key : Text) (cks : ClusterResource) (w : World) (s s' : S) (o : Outcome Text)
      → serve (save_cluster_resource (cluster_name_of w) cks) s ≡ (o, s')
      → Settles serve
          (add_k8s_resources key cks)
          w
          s
          o
          (with_answer (λ id. push_resource (record cks { id = id })) o (after_call key o w))
          s'
  unfolding add_k8s_resources run
  add_k8s_resources-Settles key cks w s s' (resolved id) e k =
      rw
        (Settles-api_call serve
          (do name ← gets cluster_name_of; request (save_cluster_resource name cks)) key w s
          (resolved id) s' (λ k'. rw (run, e)))
        refl
  add_k8s_resources-Settles key cks w s s' (rejected f) e k =
      rw
        (Settles-api_call serve
          (do name ← gets cluster_name_of; request (save_cluster_resource name cks)) key w s
          (rejected f) s' (λ k'. rw (run, e)))
        refl
