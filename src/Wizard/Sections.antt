-- ===== src/Wizard/Sections.antt =====
-- The steps of the wizard with tables: HelmAppsSection.tsx, NodesSection.tsx, TableNodes.tsx and
-- WorkloadsSection.tsx of web/src-web/src/views/cluster-creator/steps, and what each step does to the
-- buttons of the navigator.
use makoon.Prelude.{
  ◌≡◌, refl, Bool, true, false, not, Option, none, some, List, ◌∷◌, Text, text_eq, if◌then◌else◌,
}
use makoon.Js.Array.{find}
use makoon.Js.Number.{to_text}
use makoon.Model.{HelmApp, ClusterResource, ClusterNode}
use makoon.Model.Names.{option_beq}
use makoon.World.{World, Wizard}
use makoon.Creator.{has_release}
use makoon.Pages.{open_dialog}

-- A click on a row, with the text that the row is known by, and the button "Add".
unfoldable pub on_select : Text → World → World
on_select id w = record w { dialog = open_dialog (some id) w.dialog }

unfoldable pub on_add : World → World
on_add w = record w { dialog = open_dialog none w.dialog }

-- The same of WorkloadsSection.tsx.
abbrev pub on_select_resource : Text → World → World
on_select_resource name w = on_select name w

abbrev pub add_workload : World → World
add_workload w = on_add w

-- `helmAppDialog` and `workloadDialog`: the dialog that is rendered, with the text that it is given.
abbrev pub creator_app_dialog : World → Option (Option Text)
creator_app_dialog w = if w.dialog.visible then some w.dialog.selected else none

abbrev pub creator_workload_dialog : World → Option (Option Text)
creator_workload_dialog w = if w.dialog.visible then some w.dialog.selected else none

-- The marked row of each table. `isSelectedWorkload` does not look at its argument.
unfoldable pub marked_app : World → Option HelmApp
marked_app w =
    find (λ (i : HelmApp). option_beq (some i.release_name) w.dialog.selected)
      w.creator.cluster.helm_apps

abbrev is_selected_workload : Option Text → Text → Bool
is_selected_workload none id = false
is_selected_workload (some _) id = true

unfoldable pub marked_workload : World → Option ClusterResource
marked_workload w =
    find (λ (i : ClusterResource). is_selected_workload w.dialog.selected i.name)
      w.creator.cluster.cluster_resources

unfoldable pub marked_node : List ClusterNode → World → Option ClusterNode
marked_node nodes w =
    find (λ (i : ClusterNode). option_beq (some (to_text i.vm_id)) w.dialog.selected) nodes

-- The effect of a step with a form, and that of the steps of apps and of workloads.
abbrev pub form_effect : Bool → Wizard → Wizard
form_effect is_valid z = record z { next_disabled = not is_valid; previous_disabled = false }

abbrev pub free_effect : Wizard → Wizard
free_effect z = record z { next_disabled = false; previous_disabled = false }

-- A click on a row of the wizard's tables of apps marks the app that is found by its release name. In
-- the table of workloads a click marks the first row, whichever row it was on.
pub marked_workload-on_select :
    (id : Text) (r : ClusterResource) (rs : List ClusterResource) (w : World)
    → w.creator.cluster.cluster_resources ≡ r ∷ rs
    → (marked_app (on_select id w) ≡ find (has_release id) w.creator.cluster.helm_apps)
      × (marked_workload (on_select id w) ≡ some r)
unfolding marked_app marked_workload on_select find
marked_workload-on_select id r rs w h = (refl, rw (h, find) refl)
