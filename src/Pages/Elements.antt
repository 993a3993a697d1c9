-- ===== src/Pages/Elements.antt =====
-- The pages of apps and of workloads with the dialogs that they show: apps/index.tsx and
-- workloads/index.tsx of web/src-web/src/views/clusters-management/components, and what surrounds the
-- forms of HelmAppDialog.tsx and of WorkloadsDialog.tsx.
use makoon.Prelude.{
  ◌≡◌, ◌∙◌, ap, arith, Bool, true, false, not, ◌||◌, Option, none, some, List, [], ◌∷◌, All, Text,
  units, if◌then◌else◌,
}
use makoon.Model.{ClusterResource}
use makoon.World.{World, Dialog}
use makoon.Management.{HelmAppWithStatus}
use makoon.Management.Actions.{is_blank}
use makoon.Async.Run.{Server}
use makoon.Async.Pool.{System, idle}
use makoon.Async.Pool.Keeps.{Reaches}
use makoon.Async.Pool.Keeps.Polls.{IsPoll, polls-still}
use makoon.Dialogs.{Button, close, on_dialog, is_locked_page}
use makoon.Dialogs.Releases.{is_absent}
use makoon.Dialogs.Releases
use makoon.Dialogs.Workloads
use makoon.Pages.{is_selectable, on_select_app, on_select_workload, add_element}

-- `helmAppDialog`: the dialog that is rendered, with the id that it is given.
abbrev pub app_dialog : Dialog → Option (Option Text)
app_dialog d = if d.visible then some d.selected else none

-- `workloadDialog`.
abbrev pub workload_dialog : Dialog → Option (Option Text)
workload_dialog d = if d.visible then some d.selected else none

-- The button "Add" of either page, which is disabled while the cluster is not in sync.
abbrev pub click_add_element : World → World
click_add_element w = if is_locked_page w.management then w else add_element w

-- A click on a row of the table of apps. The rows of the table of workloads can all be clicked.
abbrev pub click_app : HelmAppWithStatus → World → World
click_app e w = if is_selectable e then on_select_app e w else w

abbrev pub app_header : Option Text → Text
app_header selected =
    if is_absent selected then units "New application" else units "Edit application"

abbrev pub workload_header : Option Text → Text
workload_header selected =
    if is_absent selected then units "New workload" else units "Edit workload"

-- Whether the dialog has its close button, and is closed by the escape key.
abbrev pub app_closable : World → Bool
app_closable w = not (Releases.any_operation_in_progress w)

abbrev pub workload_closable : World → Bool
workload_closable w = not (Workloads.any_operation_in_progress w)

-- The close button.
abbrev pub hide_app : World → World
hide_app w = if app_closable w then on_dialog close w else w

abbrev pub hide_workload : World → World
hide_workload w = if workload_closable w then on_dialog close w else w

-- The panel under either form with the error that was stored last.
abbrev pub last_error_shown : Dialog → Option Text
last_error_shown d = if is_blank d.last_error then none else some d.last_error

abbrev pub app_buttons : Releases.Footer → List Button
app_buttons f = f.delete_button ∷ f.uninstall_button ∷ f.install_button ∷ f.save_button ∷ []

abbrev pub workload_buttons : Workloads.Footer → List Button
workload_buttons f = f.uninstall_button ∷ f.delete_button ∷ f.install_button ∷ f.save_button ∷ []

-- Nothing in a list of buttons can be pressed.
abbrev pub IsDead : List Button → Type 0
IsDead bs = All (λ (b : Button). b.enabled ≡ false) bs

and_last : (a b : Bool) → b ≡ true → not (a || b) ≡ false
and_last a b h = ground arith

locked-workload :
    (w : World) → is_locked_page w.management ≡ true → Workloads.any_operation_in_progress w ≡ true
unfolding Workloads.any_operation_in_progress
locked-workload w l = ground arith

locked-workload_buttons :
    (is_valid : Bool) (initial_id : Text) (w : World)
    → is_locked_page w.management ≡ true
    → IsDead (workload_buttons (Workloads.footer is_valid initial_id w))
unfolding Workloads.footer
locked-workload_buttons is_valid initial_id w l =
    let busy = locked-workload w l in
    (ap not busy, (ap not busy, (ap not busy, (and_last _ _ busy, tt))))

module _ {S : Type 0} (serve : Server S) (w : World) (s : S) (y : System S)
    (r : Reaches serve IsPoll (idle w s) y) where
  polls-dialog : y.world.dialog ≡ w.dialog
  polls-dialog = ap (λ (v : World). v.dialog) (polls-still serve w s y r)

  polls-locked : is_locked_page w.management ≡ true → is_locked_page y.world.management ≡ true
  unfolding is_locked_page
  polls-locked l = ap (λ (v : World). is_locked_page v.management) (polls-still serve w s y r) ∙ l

-- The same of a row of the table of workloads.
pub polls-on_select_workload :
    {S : Type 0} (serve : Server S) (e : ClusterResource) (is_valid : Bool) (initial_id : Text)
    (w : World) (s : S) (y : System S)
    → is_locked_page w.management ≡ true
    → Reaches serve IsPoll (idle (on_select_workload e w) s) y
    → (workload_dialog y.world.dialog ≡ some (some e.id))
      × (workload_closable y.world ≡ false)
      × IsDead (workload_buttons (Workloads.footer is_valid initial_id y.world))
unfolding on_select_workload
polls-on_select_workload serve e is_valid initial_id w s y l r =
    let clicked = on_select_workload e w in
    let locked = polls-locked serve clicked s y r l in
    (
      ap workload_dialog (polls-dialog serve clicked s y r),
      ap not (locked-workload y.world locked),
      locked-workload_buttons is_valid initial_id y.world locked,
    )
