-- ===== src/Tests/Views.antt =====
-- The dialogs, the login and the moves of the browser.
use makoon.Displays.Sizes.{to_human_readable_size}
use makoon.Js.Number.{digits}
use makoon.Prelude.{
  ◌≤◌, ◌≡◌, refl, arith, false, none, some, List, [], ◌∷◌, Any, length, Text, units, nat_eq,
  text_eq,
}
use makoon.Prelude.Int.{pos}
use makoon.Js.Array.{find, find_index, filter, set_at, sort}
use makoon.Model.{AppStatus, deployed, sync, change_resources}
use makoon.World.{World, Failure, axios_error}
use makoon.Async.{resolved, end}
use makoon.Async.Run.{run, after_call}
use makoon.Creator.{find_node, delete_node, master_nodes, nodes_of_type}
use makoon.Management.Actions.{is_locked, set_helm_apps}
use makoon.Management.Members.{put_node}
use makoon.Management.Polling.{on_management}
use makoon.Management.Refreshes.{refreshed}
use makoon.Dialogs.{FormHelpers, on_dialog, set_last_error, error_shown, is_locked_page}
use makoon.Dialogs.NodeDialogs.{NodeFormModel, submit_edit, cannot_delete, node_blocked}
use makoon.Dialogs.NodeDialogs.Edits.{submit_edit_refused}
use makoon.Dialogs.NodeDialogs.Locks.{cannot_delete-set_at}
use makoon.Dialogs.Releases.{on_submit}
use makoon.Dialogs.Releases.Submits.{on_submit_install_refused}
use makoon.Routes.{FormValues}
use makoon.Wizard.Dialogs.{can_be_deleted}
use makoon.Wizard.Dialogs.LastMaster.{can_be_deleted-delete_node}
use makoon.Tests.Data.{
  first_master, first_worker, locked_worker, two_nodes, an_app, page, refusing, partial,
}

abbrev key : Text
key = units "k"

-- A form library that forgets nothing but that a form is being submitted.
abbrev forms : FormHelpers
forms = record { reset_form = λ d. d; set_submitting = λ b d. record d { submitting = b } }

abbrev shown_text : Failure → Text
shown_text f = units "Error"

abbrev synced : World
synced = on_management (λ m. record m { cluster = record m.cluster { status = some sync } }) page

abbrev values : NodeFormModel
values = record {
  name = units "master-1";
  vm_id = pos 100;
  cores = 8;
  memory = 2048;
  ip_address = units "10.0.0.9";
  storage_pool = units "local";
}

cannot_delete-set_at_example :
    Any
      (λ e. is_locked e ≡ false)
      (set_at (some 0) locked_worker (first_master ∷ first_worker ∷ []))
unfolding cannot_delete node_blocked is_locked_page filter
cannot_delete-set_at_example =
    cannot_delete-set_at (some first_master) two_nodes synced.management (some 0) locked_worker refl

submit_edit_refused_example :
    run refusing (submit_edit forms values (some first_master) (λ _. end)) page 0 ≡ (
      on_management
          (put_node
            (some 0)
            (record first_master { lock = some change_resources })
            (first_master ∷ locked_worker ∷ []))
          page,
      1,
    )
unfolding run find_index
submit_edit_refused_example =
    submit_edit_refused refusing forms values first_master first_master
      (first_master ∷ locked_worker ∷ []) page 0 1 (axios_error (some 500) none) refl refl refl refl
      (λ _. end)

abbrev statuses : List AppStatus
statuses = record { id = units "a1"; status = deployed } ∷ []

on_submit_install_refused_example :
    run partial (on_submit shown_text key an_app (some (units "a1")) (λ _. end)) page 0 ≡ (
      on_dialog (set_last_error (units "Error")) (
          refreshed (resolved statuses) (
            on_dialog (set_last_error []) (
              after_call {A = Unit {0}} key
                (resolved tt)
                (on_management (set_helm_apps (an_app ∷ [])) page)))),
      3,
    )
unfolding run find_index error_shown
on_submit_install_refused_example =
    on_submit_install_refused partial shown_text key (units "a1") an_app (an_app ∷ []) page 0 1 2 3
      (axios_error (some 500) none) statuses refl refl refl refl refl refl refl (λ _. end)

abbrev ann : FormValues
ann = record { host = units "10.0.0.2"; username = units "ann"; password = units "secret" }

can_be_deleted-delete_node_example : 1 ≤ length (master_nodes (delete_node (pos 101) page.creator))
unfolding can_be_deleted find_node find filter nodes_of_type sort
can_be_deleted-delete_node_example =
    can_be_deleted-delete_node (pos 101) page.creator refl (omega arith) (omega arith)

to_human_readable_size_tests :
    (to_human_readable_size (some 512) ≡ units "512.00 MiB")
    × (to_human_readable_size (some 1536) ≡ units "1.50 GiB")
    × (to_human_readable_size (some 1029) ≡ units "1.00 GiB")
    × (to_human_readable_size none ≡ units "0 MiB")
unfolding to_human_readable_size digits
to_human_readable_size_tests = (refl, refl, refl, refl)
