-- ===== src/Dialogs/Releases.antt =====
-- HelmAppDialog.tsx of web/src-web/src/views/clusters-management/components/apps, and the page that
-- opens it, apps/index.tsx.
pub mod Submits
use makoon.Prelude.{
  Bool, true, false, not, ◌||◌, ◌&&◌, Option, none, some, List, [], ◌∷◌, Text, text_eq, ◌==◌,
  if◌then◌else◌,
}
use makoon.Js.Array.{find}
use makoon.Model.{HelmApp, AppStatus, AppStatusType, deployed, failed, not_installed}
use makoon.Model.Names.{option_beq}
use makoon.World.{World, Dialog, Failure, SubmitMode, install}
use makoon.World.Loaders.{status}
use makoon.Async.{Async, pure, gets, try_catch, ◌>>=◌, ◌>>◌}
use makoon.Management.Actions.{
  is_blank, loading_indicator_uninstall_helm_chart, loading_indicator_delete_helm_chart,
  update_apps_status,
}
use makoon.Management.Apps.{
  add_helm_chart, update_helm_chart, install_helm_chart_without_handle_global_error_handling,
  uninstall_helm_chart, delete_helm_chart,
}
use makoon.Dialogs.{
  Button, is_on, in_dialog, close, select, set_last_error, error_shown, is_locked_page,
}

-- The status of the selected app; `none` is the empty text that stands for no status.
unfoldable pub current_status : World → Option AppStatusType
current_status w =
    elim (find (λ (e : AppStatus). option_beq (some e.id) w.dialog.selected)
      w.management.helm_apps_status) [ none ↦ none | some e ↦ some e.status ]

abbrev pub is_not_installed : Option AppStatusType → Bool
is_not_installed (some not_installed) = true
is_not_installed _ = false

abbrev pub is_to_uninstall : Option AppStatusType → Bool
is_to_uninstall (some deployed) = true
is_to_uninstall (some failed) = true
is_to_uninstall _ = false

abbrev is_missing : Option AppStatusType → Bool
is_missing none = true
is_missing (some _) = false

abbrev pub is_to_save : Option AppStatusType → Bool
is_to_save current = is_not_installed current || is_missing current

unfoldable pub any_operation_in_progress : World → Bool
any_operation_in_progress w =
    is_on loading_indicator_uninstall_helm_chart w
    || is_on loading_indicator_delete_helm_chart w
    || w.dialog.submitting
    || is_locked_page w.management

pub record Footer : Type 0 where
  pub delete_button : Button
  pub uninstall_button : Button
  pub install_button : Button
  pub save_button : Button

-- The footer, where `is_valid` is the form library's answer.
unfoldable pub footer : Bool → World → Footer
unfolding current_status any_operation_in_progress
footer is_valid w =
    let current = current_status w in
    let busy = any_operation_in_progress w in
    record {
      delete_button = record { shown = is_not_installed current; enabled = not busy };
      uninstall_button = record { shown = is_to_uninstall current; enabled = not busy };
      install_button = record {
        shown = is_not_installed current;
        enabled = not (not is_valid || busy);
      };
      save_button = record { shown = is_to_save current; enabled = not (not is_valid || busy) };
    }

-- Whether an optional text is falsy.
abbrev pub is_absent : Option Text → Bool
is_absent none = true
is_absent (some t) = is_blank t

abbrev with_selected : Option Text → (Text → Async (Unit {0})) → Async (Unit {0})
with_selected none body = pure tt
with_selected (some id) body = if is_blank id then pure tt else body id

unfoldable pub on_delete : Option Text → Async (Unit {0})
on_delete selected = with_selected selected λ id. do delete_helm_chart id; in_dialog close

unfoldable pub on_uninstall : Option Text → Async (Unit {0})
on_uninstall selected = with_selected selected uninstall_helm_chart

module _ (string_of : Failure → Text) where
  abbrev pub install_shown : Text → Async (Unit {0})
  install_shown id =
      try_catch
        (do
          in_dialog (set_last_error [])
          install_helm_chart_without_handle_global_error_handling id
          in_dialog (select id))
        (λ e. in_dialog (set_last_error (error_shown string_of e)))

  abbrev pub is_install : Option SubmitMode → Bool
  is_install (some install) = true
  is_install _ = false

  abbrev pub submit_known : Text → HelmApp → Text → Option SubmitMode → Async (Unit {0})
  submit_known key values id mode = do
    update_helm_chart key values
    if is_install mode then install_shown id else pure tt

  abbrev pub submit_new : Text → HelmApp → Async (Unit {0})
  submit_new key values = do id ← add_helm_chart key values; in_dialog (select id)

  -- `onSubmit`. `initial_id` is the id of the app that the dialog was opened with.
  unfoldable pub on_submit : Text → HelmApp → Option Text → Async (Unit {0})
  on_submit key values none = submit_new key values
  on_submit key values (some id) = do
    mode ← gets (λ w. w.dialog.submit_mode)
    if is_blank id then submit_new key values else submit_known key values id mode
