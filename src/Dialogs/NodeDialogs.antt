-- ===== src/Dialogs/NodeDialogs.antt =====
-- EditNodeDialog.tsx and AddNodeDialog.tsx of web/src-web/src/views/clusters-management/components/nodes,
-- and the page of nodes with its polling, nodes/index.tsx.
pub mod Locks
pub mod Edits
use makoon.Prelude.{
  ℕ, Bool, true, false, not, ◌||◌, ◌&&◌, Option, none, some, List, [], ◌∷◌, length, ltb, Text,
  units, nat_eq, ◌==◌, if◌then◌else◌,
}
use makoon.Prelude.Int.{ℤ, pos}
use makoon.Js.Array.{find, filter}
use makoon.Model.{ClusterNode, ClusterNodeType, master}
use makoon.Nodes.{generate_node}
use makoon.World.{World, Dialog, type_error, ClusterManagementStore}
use makoon.Async.{Outcome, resolved, rejected, Async, pure, ◌>>=◌, ◌>>◌}
use makoon.Management.Actions.{
  is_blank, is_locked, update_cluster_node_vm_statuses, update_cluster_kube_statuses,
  update_nodes_if_there_is_any_lock,
}
use makoon.Management.Members.{change_resources_of_node, delete_node_from_cluster_by_name, add_node}
use makoon.Dialogs.{Button, FormHelpers, in_dialog, hide, close, is_locked_page}

pub record NodeFormModel : Type 0 where
  pub name : Text
  pub vm_id : ℤ
  pub cores : ℕ
  pub memory : ℕ
  pub ip_address : Text
  pub storage_pool : Text

abbrev stored_lock : Option ClusterNode → Bool
stored_lock none = false
stored_lock (some n) = is_locked n

unfoldable pub node_blocked : Option ClusterNode → ClusterManagementStore → Bool
node_blocked stored m = stored_lock stored || is_locked_page m

-- `nodes` are the cluster's, which the dialog is shown for.
unfoldable pub cannot_delete : Option ClusterNode → List ClusterNode → ClusterManagementStore → Bool
unfolding node_blocked
cannot_delete stored nodes m =
    ltb (length (filter (λ i. not (is_locked i)) nodes)) 2 || node_blocked stored m

-- The buttons "Delete" and "Update".
unfoldable pub edit_footer :
    Bool → Option ClusterNode → List ClusterNode → ClusterManagementStore → Button × Button
unfolding node_blocked cannot_delete
edit_footer is_valid stored nodes m = (
  record { shown = true; enabled = not (cannot_delete stored nodes m) },
  record { shown = true; enabled = not (not is_valid || node_blocked stored m) },
)

-- `values.cores != stored?.cores || values.memory != stored?.memory`, with a name, which is not empty.
abbrev pub changed : NodeFormModel → ClusterNode → Bool
changed values stored =
    (not (values.cores == stored.cores) || not (values.memory == stored.memory))
    && not (is_blank stored.name)

abbrev change_if_needed : NodeFormModel → Option ClusterNode → Async (Unit {0})
change_if_needed values none = pure tt
change_if_needed values (some stored) =
    if changed values stored
    then change_resources_of_node stored.name values.cores values.memory
    else pure tt

abbrev finish : FormHelpers → (Dialog → Dialog) → Async (Unit {0})
finish formik leave = do
  in_dialog formik.reset_form
  in_dialog (formik.set_submitting false)
  in_dialog leave

-- `onSubmit` of EditNodeDialog.tsx.
unfoldable pub submit_edit : FormHelpers → NodeFormModel → Option ClusterNode → Async (Unit {0})
submit_edit formik values stored = do change_if_needed values stored; finish formik close

-- The button "Yes" of the confirmation.
unfoldable pub confirm_delete : Option ClusterNode → Async (Unit {0})
confirm_delete none = pure tt
confirm_delete (some stored) = if is_blank stored.name then pure tt else (do
  delete_node_from_cluster_by_name stored.name
  in_dialog (λ d. record d { delete_confirm = false })
  in_dialog close)

-- The default node of AddNodeDialog.tsx.
abbrev pub default_master : ClusterNode
default_master = record {
  vm_id = pos 100;
  name = units "master-1";
  cores = 2;
  memory = 2048;
  ip_address = [];
  storage_pool = [];
  node_type = master;
  lock = none;
}

-- Before a load `cluster.nodes` is undefined, and the component throws.
unfoldable pub generated_next_node :
    (Text → ℤ → Text) → ClusterNodeType → ClusterManagementStore → Outcome ClusterNode
generated_next_node float_text t m = elim m.cluster.nodes [
  | none ↦ rejected type_error
  | some nodes ↦ resolved (generate_node float_text nodes t default_master)
]

-- The form's values with the type that the dialog was opened for.
abbrev pub node_to_add : NodeFormModel → ClusterNodeType → ClusterNode
node_to_add values t = record {
  vm_id = values.vm_id;
  name = values.name;
  cores = values.cores;
  memory = values.memory;
  ip_address = values.ip_address;
  storage_pool = values.storage_pool;
  node_type = t;
  lock = none;
}

-- `onSubmit` of AddNodeDialog.tsx.
unfoldable pub submit_add : FormHelpers → NodeFormModel → ClusterNodeType → Async (Unit {0})
submit_add formik values t = do add_node (node_to_add values t); finish formik hide

-- What the page of nodes does at each tick, its calls one after the other.
unfoldable pub poll_nodes : Text → Text → Text → Async (Unit {0})
poll_nodes vms_key kube_key nodes_key = do
  update_cluster_node_vm_statuses vms_key
  update_cluster_kube_statuses kube_key
  update_nodes_if_there_is_any_lock nodes_key
