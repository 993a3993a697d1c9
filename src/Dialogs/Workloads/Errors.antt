-- ===== src/Dialogs/Workloads/Errors.antt =====
-- Where WorkloadsDialog.tsx shows the errors of its requests.
use makoon.Prelude.{◌≡◌, refl, [], Text}
use makoon.Model.{ClusterResource}
use makoon.Api.{install_cluster_resource, save_cluster_resource}
use makoon.World.{World, Failure}
use makoon.World.Loaders.{stop_processing}
use makoon.Async.{Outcome, resolved, rejected, request, gets, ◌>>=◌}
use makoon.Async.Run.{
  done, Server, run, Settles, Settles-wrap_with_processing_indicator, after_call,
}
use makoon.Management.Actions.{cluster_name_of, loading_indicator_install_k8s_resource}
use makoon.Management.Apps.{install_k8s_resources_without_global_error_handling, push_resource}
use makoon.Management.Changes.{add_k8s_resources-Settles}
use makoon.Management.Polling.{on_management}
use makoon.Dialogs.{on_dialog, set_last_error, error_shown, select}
use makoon.Dialogs.Workloads.{on_install, on_submit}

-- The text that the dialog shows after an answer: none where the server agreed.
abbrev pub shown_after : {A : Type 0} → (Failure → Text) → Outcome A → Text
shown_after string_of (resolved _) = []
shown_after string_of (rejected f) = error_shown string_of f

-- The page after the answer to a submit of a new resource.
abbrev pub selected_after : ClusterResource → Outcome Text → World → World
selected_after values (resolved id) w =
    on_dialog (select id) (on_management (push_resource (record values { id = id })) w)
selected_after values (rejected f) w = w

module _ {S : Type 0} (serve : Server S) (string_of : Failure → Text) where
  -- `onInstall` always succeeds: the dialog shows the error of a refusal, and no error after an
  -- agreement; the indicator is off, and the application's error is as it was.
  pub on_install-Settles :
      (id : Text) (w : World) (s s' : S) (o : Outcome (Unit {0}))
      → serve (install_cluster_resource (cluster_name_of w) id) s ≡ (o, s')
      → Settles serve
          (on_install string_of id)
          w
          s
          (resolved tt)
          (on_dialog (set_last_error (shown_after string_of o)) (record w {
            indicator = stop_processing loading_indicator_install_k8s_resource w.indicator;
          }))
          s'
  unfolding on_install install_k8s_resources_without_global_error_handling run
  on_install-Settles id w s s' (resolved u) e k =
      rw
        (Settles-wrap_with_processing_indicator serve
          (gets cluster_name_of >>= λ name. request (install_cluster_resource name id))
          loading_indicator_install_k8s_resource (on_dialog (set_last_error []) w) s (resolved u) s'
          (λ k'. rw (run, e) refl))
        refl
  on_install-Settles id w s s' (rejected f) e k =
      rw
        (Settles-wrap_with_processing_indicator serve
          (gets cluster_name_of >>= λ name. request (install_cluster_resource name id))
          loading_indicator_install_k8s_resource (on_dialog (set_last_error []) w) s (rejected f) s'
          (λ k'. rw (run, e) refl))
        refl

  -- A submit of a new resource puts it at the end of the list under the id of the server and selects
  -- that id on the page, or changes neither and fails with the server's error.
  pub on_submit_new_resource :
      (key : Text) (values : ClusterResource) (w : World) (s s' : S) (o : Outcome Text)
      → serve (save_cluster_resource (cluster_name_of w) values) s ≡ (o, s')
      → Settles serve
          (on_submit key values [])
          w
          s
          (done o)
          (selected_after values o (after_call key o w))
          s'
  unfolding on_submit run
  on_submit_new_resource key values w s s' (resolved id) e k =
      add_k8s_resources-Settles serve key values w s s' (resolved id) e _
  on_submit_new_resource key values w s s' (rejected f) e k =
      add_k8s_resources-Settles serve key values w s s' (rejected f) e _
