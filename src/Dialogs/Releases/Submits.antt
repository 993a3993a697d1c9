-- ===== src/Dialogs/Releases/Submits.antt =====
-- What a submit of HelmAppDialog.tsx leaves behind, and which of its buttons are there together.
use makoon.Prelude.{
  ◌≡◌, ◌∙◌, refl, ap, arith, ◌&&◌, ◌||◌, Bool, true, false, Option, none, some, List, [], Text,
}
use makoon.Model.{HelmApp, AppStatus, AppStatusType}
use makoon.Api.{save_helm_app, update_helm_app, install_helm_app, apps_status}
use makoon.World.{World, Failure, install}
use makoon.Async.{Outcome, resolved, rejected, continue, handle, end, gets, request, ◌>>=◌}
use makoon.Async.Run.{Server, run, Settles, Settles-api_call, after_call}
use makoon.Management.Actions.{cluster_name_of, is_blank, set_helm_apps}
use makoon.Management.Apps.{add_helm_chart, push_app, replace_app}
use makoon.Management.Changes.{update_helm_chart-Settles}
use makoon.Management.Polling.{on_management}
use makoon.Management.Refreshes.{
  refreshed, update_apps_status-Settles, install_helm_chart_refreshes,
}
use makoon.Dialogs.{on_dialog, in_dialog, select, set_last_error, error_shown}
use makoon.Dialogs.Releases.{
  any_operation_in_progress, current_status, footer, on_submit, install_shown, submit_known,
  is_to_uninstall, is_not_installed, is_to_save,
}

-- The dialog never offers to uninstall an app together with another button.
pub footer-uninstall_button :
    (is_valid : Bool) (w : World)
    → let f = footer is_valid w in
      (f.uninstall_button.shown
        && (f.delete_button.shown || f.install_button.shown || f.save_button.shown))
      ≡ false
unfolding footer current_status
footer-uninstall_button is_valid w = alone (current_status w)
  where
    alone :
        (c : Option AppStatusType)
        → (is_to_uninstall c && (is_not_installed c || is_not_installed c || is_to_save c)) ≡ false
    alone c = ground arith

-- While an operation is in progress no button of the dialog is enabled.
pub footer-any_operation_in_progress :
    (is_valid : Bool) (w : World)
    → any_operation_in_progress w ≡ true
    → let f = footer is_valid w in
      (f.delete_button.enabled || f.uninstall_button.enabled || f.install_button.enabled
        || f.save_button.enabled)
      ≡ false
unfolding footer
footer-any_operation_in_progress is_valid w h = rw h (ground arith)

module _ {S : Type 0} (serve : Server S) (string_of : Failure → Text) where
  -- With an open cluster, and where the server takes a new app, a submit puts the app at the end of
  -- the list under the id of the server, selects that id on the page, and then the statuses are
  -- refreshed.
  pub on_submit_new :
      (key : Text) (values : HelmApp) (id : Text) (w : World) (s s' s'' : S)
      (r : Outcome (List AppStatus))
      → is_blank (cluster_name_of w) ≡ false
      → serve (save_helm_app (cluster_name_of w) values) s ≡ (resolved id, s')
      → serve (apps_status (cluster_name_of w)) s' ≡ (r, s'')
      → run serve (on_submit string_of key values none (λ _. end)) w s ≡ (
        refreshed r (
            on_dialog (select id) (
              on_management
                (push_app (record values { id = some id }))
                (after_call key (resolved id) w))),
        s'',
      )
  unfolding on_submit add_helm_chart run
  on_submit_new key values id w s s' s'' r named e f =
      let w' =
        on_management (push_app (record values { id = some id }))
          (after_call key (resolved id) w) in
      rw
        (Settles-api_call serve
          (gets cluster_name_of >>= λ name. request (save_helm_app name values)) key w s
          (resolved id) s' (λ k'. rw (run, e) refl))
        (update_apps_status-Settles serve (on_dialog (select id) w') s' s'' r named f (λ _. end))

  -- With loaded apps and an open cluster, where the server takes the edit of an app but refuses to
  -- install it, the submit succeeds all the same: the dialog shows the error, and the statuses have
  -- been refreshed.
  pub on_submit_install_refused :
      (key id : Text) (values : HelmApp) (apps : List HelmApp) (w : World) (s s1 s2 s3 : S)
      (f : Failure) (statuses : List AppStatus)
      → w.dialog.submit_mode ≡ some install
      → is_blank id ≡ false
      → is_blank (cluster_name_of w) ≡ false
      → w.management.cluster.helm_apps ≡ some apps
      → serve (update_helm_app (cluster_name_of w) values) s ≡ (resolved tt, s1)
      → serve (install_helm_app (cluster_name_of w) id) s1 ≡ (rejected f, s2)
      → serve (apps_status (cluster_name_of w)) s2 ≡ (resolved statuses, s3)
      → let o : Outcome (Unit {0}) = resolved tt in
        Settles serve
          (on_submit string_of key values (some id))
          w
          s
          o
          (on_dialog (set_last_error (error_shown string_of f)) (
            refreshed (resolved statuses) (
              on_dialog
                (set_last_error [])
                (after_call key o (on_management (set_helm_apps (replace_app values apps)) w)))))
          s3
  unfolding on_submit run
  on_submit_install_refused key id values apps w s s1 s2 s3 f statuses mode blank named h e1 e2 e3
        k =
      let ok : Outcome (Unit {0}) = resolved tt in
      let w1 = after_call key ok (on_management (set_helm_apps (replace_app values apps)) w) in
      rw (run, blank) (ap (λ m. run serve (submit_known string_of key values id m k) w s) mode)
      ∙ update_helm_chart-Settles serve key values apps w s s1 (resolved tt) h e1
          (continue (λ _. install_shown string_of id) k)
      ∙ install_helm_chart_refreshes serve id (on_dialog (set_last_error []) w1) s1 s2 s3
          (rejected f) (resolved statuses) named e2 e3
          (continue (λ _. in_dialog (select id))
            (handle (λ e. in_dialog (set_last_error (error_shown string_of e))) k))
