-- ===== src/Dialogs/Initials.antt =====
-- The values that the dialogs of the open cluster are opened with: HelmAppDialog.tsx,
-- WorkloadsDialog.tsx, EditNodeDialog.tsx and AddNodeDialog.tsx of
-- web/src-web/src/views/clusters-management/components.
use makoon.Prelude.{◌≡◌, ap, Bool, false, Option, none, some, List, Text, text_eq, ◌==◌, ==_refl}
use makoon.Prelude.Int.{ℤ}
use makoon.Js.Array.{find}
use makoon.Js.Array.Search.{find-set_at_self}
use makoon.Model.{HelmApp, ClusterResource, ClusterNode, ClusterNodeType}
use makoon.Model.Names.{option_beq}
use makoon.World.{ClusterManagementStore}
use makoon.Async.{Outcome, resolved, rejected}
use makoon.Management.{helm_apps, k8s_resources}
use makoon.Management.Actions.{is_blank, set_helm_apps, set_resources}
use makoon.Management.Apps.{replace_app, replace_resource}
use makoon.Dialogs.NodeDialogs.{NodeFormModel, generated_next_node}
use makoon.Wizard.Initials.{empty_app, empty_resource, shown_of, effect_on_selected}
use makoon.Pages.{stored_node}

abbrev pub has_app_id : Text → HelmApp → Bool
has_app_id id e = option_beq e.id (some id)

abbrev pub has_resource_id : Text → ClusterResource → Bool
has_resource_id id e = e.id == id

-- The values before an element is selected.
abbrev pub new_app : HelmApp
new_app = empty_app

abbrev pub new_resource : ClusterResource
new_resource = empty_resource

-- The effects on a change of the selected id.
unfoldable pub initial_app : Option Text → ClusterManagementStore → HelmApp → HelmApp
initial_app selected m = effect_on_selected has_app_id selected (helm_apps m)

unfoldable pub initial_resource :
    Option Text → ClusterManagementStore → ClusterResource → ClusterResource
initial_resource selected m = effect_on_selected has_resource_id selected (k8s_resources m)

-- `initialValues` of EditNodeDialog.tsx: without a stored node each field is undefined.
unfoldable pub initial_stored : Text → List ClusterNode → Option NodeFormModel
unfolding stored_node
initial_stored vm_id nodes = elim (stored_node vm_id nodes) [
  | none ↦ none
  | some n ↦ some (shown_of n)
]

-- `initialValues` of AddNodeDialog.tsx.
unfoldable pub initial_generated :
    (Text → ℤ → Text) → ClusterNodeType → ClusterManagementStore → Outcome NodeFormModel
unfolding generated_next_node
initial_generated float_text t m = elim (generated_next_node float_text t m) [
  | resolved n ↦ resolved (shown_of n)
  | rejected e ↦ rejected e
]

-- An app of the open cluster whose edit has been put into the list is shown with the edited values
-- where its dialog is opened again.
pub initial_app-replace_app :
    (values before old : HelmApp) (id : Text) (apps : List HelmApp) (m : ClusterManagementStore)
    → is_blank id ≡ false
    → find (has_app_id id) apps ≡ some old
    → values.id ≡ some id
    → initial_app (some id) (set_helm_apps (replace_app values apps) m) before ≡ values
unfolding initial_app
initial_app-replace_app values before old id apps m named found same =
    let by_id : (λ (e : HelmApp). option_beq e.id values.id) ≡ has_app_id id =
      ap {B = HelmApp → Bool} (λ (k : Option Text) (e : HelmApp). option_beq e.id k) same in
    rw (
      named,
      initial_app,
      by_id,
      find-set_at_self (has_app_id id) values apps old (rw same (==_refl id)) found,
    )

-- The same of a Kubernetes resource.
pub initial_resource-replace_resource :
    (values before old : ClusterResource) (rs : List ClusterResource) (m : ClusterManagementStore)
    → is_blank values.id ≡ false
    → find (has_resource_id values.id) rs ≡ some old
    → initial_resource (some values.id) (set_resources (replace_resource values rs) m) before
      ≡ values
unfolding initial_resource
initial_resource-replace_resource values before old rs m named found = rw (
  named,
  initial_resource,
  find-set_at_self (has_resource_id values.id) values rs old (==_refl values.id) found,
)
