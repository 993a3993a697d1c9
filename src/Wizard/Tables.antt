-- ===== src/Wizard/Tables.antt =====
-- NodesSection.tsx and nodes/index.tsx of web/src-web/src/views/cluster-creator/steps/nodes, and the
-- headers and footers of the dialogs that the tables of the wizard open.
use makoon.Prelude.{
  not, ◌++◌, ◌≡◌, ◌≢◌, refl, arith, Bool, true, false, Option, none, some, List, [], ◌∷◌, Text,
  units, int_eq, ◌==◌, ==_iff, if◌then◌else◌, Bool-cases, inl, inr,
}
use makoon.Prelude.Int.{ℤ, pos}
use makoon.Js.Array.{find, filter}
use makoon.Model.{ClusterNode, ClusterNodeType, master, worker}
use makoon.World.{ClusterCreatorStore}
use makoon.Creator.{has_id, find_node, add_node, master_nodes, worker_nodes}
use makoon.Management.Actions.{is_blank}
use makoon.Dialogs.{Button}
use makoon.Wizard.Dialogs.{can_be_deleted}
use makoon.Wizard.Initials.{shown_of, initial_node}

-- The state of a section of nodes.
pub record NodesSection : Type 0 where
  pub show_node_dialog : Bool
  pub selected_node_id : Option ℤ

-- `onClickNodeHandler`.
unfoldable pub on_click_node : ℤ → NodesSection → NodesSection
on_click_node id s = record { selected_node_id = some id; show_node_dialog = true }

-- The button "Add node".
abbrev pub click_add_node :
    (Text → ℤ → Text) → ClusterNode → ClusterNodeType → ClusterCreatorStore → ClusterCreatorStore
click_add_node float_text blank t s = add_node float_text blank t s

-- `onClose` of the dialog.
abbrev pub on_close : NodesSection → NodesSection
on_close s = record { show_node_dialog = false; selected_node_id = none }

-- `nodeDialog`: whether CreatorNodeDialog is rendered, and its `nodeId`.
unfoldable pub node_dialog : NodesSection → Option (Option ℤ)
node_dialog s = if s.show_node_dialog then some s.selected_node_id else none

-- The sections of the step, each with its title, its nodes and their type.
unfoldable pub nodes_step : ClusterCreatorStore → List (Text × List ClusterNode × ClusterNodeType)
nodes_step s =
    (units "Master nodes", master_nodes s, master)
    ∷ (units "Workers nodes", worker_nodes s, worker)
    ∷ []

-- The header of a dialog for something that has been selected or not.
abbrev pub header_of : Text → Bool → Text
header_of what is_selected = (if is_selected then units "Edit " else units "New ") ++ what

abbrev is_text : Option Text → Bool
is_text none = false
is_text (some t) = not (is_blank t)

-- Whether the dialog has a button "Delete", and the button "Save", where `is_valid` is the form
-- library's answer. Each of the other buttons of the dialogs is always enabled.
unfoldable pub node_footer : Bool → ℤ → ClusterCreatorStore → Bool × Button
node_footer is_valid node_id s =
    (can_be_deleted node_id s, record { shown = true; enabled = is_valid })

unfoldable pub app_footer : Bool → Option Text → Bool × Button
app_footer is_valid none = (false, record { shown = true; enabled = is_valid })
app_footer is_valid (some _) = (true, record { shown = true; enabled = is_valid })

unfoldable pub workload_footer : Bool → Option Text → Bool × Button
workload_footer is_valid selected = (is_text selected, record { shown = true; enabled = is_valid })

find-filter_one :
    {A : Type 0} (p : A → Bool) (x : A) (xs : List A) → filter p xs ≡ x ∷ [] → find p xs ≡ some x
unfolding find filter
find-filter_one p x [] h = absurd (ground arith)
find-filter_one p x (y ∷ ys) h = ground (arith, find-filter_one p x ys)

-- A click on the row of a node opens the dialog with the values of that node, where no other node of the
-- wizard has its id and the id is not 0.
pub initial_node-on_click_node :
    (x : ClusterNode) (s : ClusterCreatorStore) (t : NodesSection)
    → filter (has_id x.vm_id) s.cluster.nodes ≡ x ∷ []
    → x.vm_id ≢ pos 0
    → (node_dialog (on_click_node x.vm_id t) ≡ some (some x.vm_id))
      × (initial_node (on_click_node x.vm_id t).selected_node_id s ≡ some (shown_of x))
unfolding node_dialog on_click_node initial_node find_node
initial_node-on_click_node x s t only ne = (
  refl,
  elim (Bool-cases (x.vm_id == pos 0)) [
    | inl e ↦ absurd (ne ((==_iff x.vm_id (pos 0)).0 e))
    | inr e ↦ rw (e, find-filter_one (has_id x.vm_id) x s.cluster.nodes only) refl
  ],
)
