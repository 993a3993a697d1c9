-- ===== src/Dialogs/Workloads.antt =====
-- WorkloadsDialog.tsx of web/src-web/src/views/clusters-management/components/workloads, and the page
-- that opens it, workloads/index.tsx.
pub mod Errors
use makoon.Prelude.{
  Bool, true, false, not, ◌||◌, Option, none, some, List, [], ◌∷◌, Text, if◌then◌else◌,
}
use makoon.Model.{ClusterResource}
use makoon.World.{World, Failure}
use makoon.Async.{Async, pure, try_catch, ◌>>=◌, ◌>>◌}
use makoon.Management.Actions.{
  is_blank, loading_indicator_install_k8s_resource, loading_indicator_uninstall_k8s_resource,
  loading_indicator_delete_k8s_resource,
}
use makoon.Management.Apps.{
  add_k8s_resources, update_k8s_resources, install_k8s_resources_without_global_error_handling,
  uninstall_k8s_resources_without_error_handling, delete_k8s_resources,
}
use makoon.Dialogs.{
  Button, is_on, in_dialog, close, select, set_last_error, error_shown, is_locked_page,
}

unfoldable pub any_operation_in_progress : World → Bool
any_operation_in_progress w =
    is_on loading_indicator_install_k8s_resource w
    || is_on loading_indicator_uninstall_k8s_resource w
    || is_on loading_indicator_delete_k8s_resource w
    || w.dialog.submitting
    || is_locked_page w.management

pub record Footer : Type 0 where
  pub uninstall_button : Button
  pub delete_button : Button
  pub install_button : Button
  pub save_button : Button

-- The footer, where `is_valid` is the form library's answer.
unfoldable pub footer : Bool → Text → World → Footer
unfolding any_operation_in_progress
footer is_valid initial_id w =
    let busy = any_operation_in_progress w in
    let known = not (is_blank initial_id) in
    record {
      uninstall_button = record { shown = known; enabled = not busy };
      delete_button = record { shown = known; enabled = not busy };
      install_button = record { shown = known; enabled = not busy };
      save_button = record { shown = true; enabled = not (not is_valid || busy) };
    }

-- `onSubmit`. `initial_id` is the id of the resource that the dialog was opened with.
unfoldable pub on_submit : Text → ClusterResource → Text → Async (Unit {0})
on_submit key values initial_id =
    if not (is_blank initial_id)
    then (do update_k8s_resources key values; in_dialog (select initial_id))
    else (do id ← add_k8s_resources key values; in_dialog (select id))

unfoldable pub on_delete : Text → Async (Unit {0})
on_delete initial_id =
    if is_blank initial_id then pure tt else (do delete_k8s_resources initial_id; in_dialog close)

module _ (string_of : Failure → Text) where
  abbrev pub handle_axios_error : Failure → Async (Unit {0})
  handle_axios_error e = in_dialog (set_last_error (error_shown string_of e))

  unfoldable pub on_install : Text → Async (Unit {0})
  on_install initial_id =
      try_catch
        (do
          in_dialog (set_last_error [])
          install_k8s_resources_without_global_error_handling initial_id)
        handle_axios_error

  unfoldable pub on_uninstall : Text → Async (Unit {0})
  on_uninstall initial_id =
      try_catch
        (do
          in_dialog (set_last_error [])
          uninstall_k8s_resources_without_error_handling initial_id)
        handle_axios_error
