-- ===== src/Wizard/Dialogs.antt =====
-- The dialogs of the wizard: CreatorNodeDialog.tsx, CreatorHelmAppDialog.tsx and
-- CreatorWorkloadsDialog.tsx of web/src-web/src/views/cluster-creator/steps.
pub mod LastMaster
pub mod TakenId
use makoon.Prelude.{
  ℕ, Bool, true, false, not, Option, none, some, List, [], ◌∷◌, length, ltb, Text, nat_eq, int_eq,
  text_eq, ◌==◌, if◌then◌else◌,
}
use makoon.Prelude.Int.{ℤ, pos}
use makoon.Js.Array.{find}
use makoon.Model.{HelmApp, ClusterResource, ClusterNode, ClusterNodeType, master}
use makoon.Model.Names.{node_type_eq}
use makoon.World.{World, Dialog, ClusterCreatorStore}
use makoon.Creator.{
  find_node, update_node, delete_node, master_nodes, add_helm_app, update_helm_app, delete_helm_app,
  has_release, add_custom_k8s_resources, update_custom_k8s_resources, delete_custom_k8s_resources,
  has_name,
}
use makoon.Management.Actions.{is_blank}
use makoon.Dialogs.{close}
use makoon.Dialogs.NodeDialogs.{NodeFormModel}

abbrev on_creator : (ClusterCreatorStore → ClusterCreatorStore) → World → World
on_creator f w = record w { creator = f w.creator }

abbrev close_dialog : World → World
close_dialog w = record w { dialog = close w.dialog }

-- `props.nodeId`, which is an id or null; 0 is falsy.
abbrev with_id : Option ℤ → (ℤ → World → World) → World → World
with_id none f w = w
with_id (some id) f w = if id == pos 0 then w else f id w

-- `storedNode.get()?.nodeType`. Without a stored node it is undefined, and nothing is updated.
abbrev pub stored_type : Option ClusterNode → ClusterNodeType
stored_type none = master
stored_type (some n) = n.node_type

abbrev pub edited : NodeFormModel → ClusterNodeType → ClusterNode
edited values t = record {
  vm_id = values.vm_id;
  name = values.name;
  cores = values.cores;
  memory = values.memory;
  ip_address = values.ip_address;
  storage_pool = values.storage_pool;
  node_type = t;
  lock = none;
}

-- `onSubmit` of CreatorNodeDialog.tsx, with the form's reset.
unfoldable pub submit_node : (World → World) → NodeFormModel → Option ℤ → World → World
submit_node reset_form values = λ node_id. with_id node_id λ id w. close_dialog (
    reset_form
      (on_creator (λ s. update_node id (edited values (stored_type (find_node id s))) s) w))

abbrev is_master : Option ClusterNode → Bool
is_master none = false
is_master (some n) = n.node_type == master

-- `canBeDeleted` of CreatorNodeDialog.tsx.
unfoldable pub can_be_deleted : ℤ → ClusterCreatorStore → Bool
can_be_deleted node_id s =
    if is_master (find_node node_id s) then ltb 1 (length (master_nodes s)) else true

-- `onDelete` of CreatorNodeDialog.tsx.
unfoldable pub delete_selected_node : Option ℤ → World → World
delete_selected_node node_id = with_id node_id λ id w. on_creator (delete_node id) (close_dialog w)

-- Whether an optional text is falsy.
abbrev with_text : Option Text → (World → World) → (Text → World → World) → World → World
with_text none g f w = g w
with_text (some t) g f w = if is_blank t then g w else f t w

-- `onSubmit` and `onDelete` of CreatorHelmAppDialog.tsx.
unfoldable pub submit_app : Option Text → HelmApp → World → World
submit_app selected values w = close_dialog (
    with_text selected (on_creator (add_helm_app values))
      (λ id. on_creator (update_helm_app id values)) w)

unfoldable pub delete_selected_app : Option Text → World → World
delete_selected_app selected w =
    with_text selected (λ v. v) (λ id v. close_dialog (on_creator (delete_helm_app id) v)) w

-- `onSubmit` and `onDelete` of CreatorWorkloadsDialog.tsx.
unfoldable pub submit_workload : Option Text → ClusterResource → World → World
submit_workload selected values w = close_dialog (
    with_text selected (on_creator (add_custom_k8s_resources values))
      (λ id. on_creator (update_custom_k8s_resources id values)) w)

unfoldable pub delete_selected_workload : Option Text → World → World
delete_selected_workload selected w =
    with_text selected (λ v. v)
      (λ id v. close_dialog (on_creator (delete_custom_k8s_resources id) v)) w
