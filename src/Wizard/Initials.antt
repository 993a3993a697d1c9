-- ===== src/Wizard/Initials.antt =====
-- The values that the dialogs of the wizard are opened with, and that they show again what was saved.
use makoon.Prelude.{
  ◌≡◌, arith, Bool, false, Option, none, some, List, [], Text, text_eq, int_eq, ◌==◌, ==_iff,
  ==_refl, if◌then◌else◌,
}
use makoon.Prelude.Int.{ℤ, pos}
use makoon.Js.Array.{find}
use makoon.Js.Array.Search.{find-set_at_self}
use makoon.Model.{HelmApp, ClusterResource, ClusterNode}
use makoon.World.{World, ClusterCreatorStore}
use makoon.Creator.{
  find_node, update_node, has_release, update_helm_app, has_name, update_custom_k8s_resources,
}
use makoon.Creator.Members.{find_node-update_node}
use makoon.Management.Actions.{is_blank}
use makoon.Dialogs.NodeDialogs.{NodeFormModel}
use makoon.Wizard.Dialogs.{edited, stored_type, submit_node, submit_app, submit_workload}

-- The fields of a node that a form shows.
abbrev pub shown_of : ClusterNode → NodeFormModel
shown_of n = record {
  name = n.name;
  vm_id = n.vm_id;
  cores = n.cores;
  memory = n.memory;
  ip_address = n.ip_address;
  storage_pool = n.storage_pool;
}

-- `storedNode` and `initialValues` of CreatorNodeDialog.tsx: without a stored node each field is
-- undefined.
unfoldable pub initial_node : Option ℤ → ClusterCreatorStore → Option NodeFormModel
initial_node none s = none
initial_node (some id) s =
    if id == pos 0 then none else elim (find_node id s) [ none ↦ none | some n ↦ some (shown_of n) ]

abbrev pub empty_app : HelmApp
empty_app = record {
  id = some [];
  release_name = [];
  chart_name = [];
  chart_version = some [];
  wait = some false;
  namespace = [];
  repository = [];
  values = some [];
}

abbrev pub empty_resource : ClusterResource
empty_resource = record { id = []; name = []; content = [] }

-- The effect on a change of the selected element: the initial values are replaced where the element
-- is found.
abbrev pub effect_on_selected {ℓ} : {A : Type ℓ} → (Text → A → Bool) → Option Text → List A → A → A
effect_on_selected p none xs before = before
effect_on_selected p (some id) xs before =
    if is_blank id then before else elim (find (p id) xs) [ none ↦ before | some x ↦ x ]

-- `initialValues` of CreatorHelmAppDialog.tsx and of CreatorWorkloadsDialog.tsx after the effect.
unfoldable pub initial_app : Option Text → ClusterCreatorStore → HelmApp → HelmApp
initial_app selected s = effect_on_selected has_release selected s.cluster.helm_apps

unfoldable pub initial_workload :
    Option Text → ClusterCreatorStore → ClusterResource → ClusterResource
initial_workload selected s = effect_on_selected has_name selected s.cluster.cluster_resources

-- What a submit leaves in the wizard's store.
submit_node-creator :
    (reset_form : World → World) (values : NodeFormModel) (id : ℤ) (w : World)
    → ((v : World) → (reset_form v).creator ≡ v.creator)
    → (id == pos 0) ≡ false
    → (submit_node reset_form values (some id) w).creator
      ≡ update_node id (edited values (stored_type (find_node id w.creator))) w.creator
unfolding submit_node
submit_node-creator reset_form values id w keeps positive = rw positive (keeps _)

find_node-update_node_self :
    (id : ℤ) (old new : ClusterNode) (s : ClusterCreatorStore)
    → find_node id s ≡ some old
    → new.vm_id ≡ id
    → find_node id (update_node id new s) ≡ some new
find_node-update_node_self id old new s found same =
    ground (arith, find_node-update_node id id old new s found same, ==_refl id)

-- A node that has been saved under the id it had is shown with the saved values where its dialog is
-- opened again; the reset of the form leaves the wizard's store alone.
pub initial_node-submit_node :
    (reset_form : World → World) (values : NodeFormModel) (id : ℤ) (old : ClusterNode) (w : World)
    → ((v : World) → (reset_form v).creator ≡ v.creator)
    → (id == pos 0) ≡ false
    → find_node id w.creator ≡ some old
    → values.vm_id ≡ id
    → initial_node (some id) (submit_node reset_form values (some id) w).creator ≡ some values
unfolding initial_node
initial_node-submit_node reset_form values id old w keeps positive found same = rw (
  submit_node-creator reset_form values id w keeps positive,
  initial_node,
  positive,
  find_node-update_node_self id old (edited values (stored_type (find_node id w.creator))) w.creator
      found same,
)

-- An app that has been saved under the release name it had is shown with the saved values where its
-- dialog is opened again.
pub initial_app-submit_app :
    (values before old : HelmApp) (id : Text) (w : World)
    → is_blank id ≡ false
    → find (has_release id) w.creator.cluster.helm_apps ≡ some old
    → values.release_name ≡ id
    → initial_app (some id) (submit_app (some id) values w).creator before ≡ values
unfolding submit_app initial_app update_helm_app
initial_app-submit_app values before old id w named found same = rw (
  named,
  initial_app,
  find-set_at_self (has_release id) values w.creator.cluster.helm_apps old
      ((==_iff values.release_name id).1 same) found,
)

-- The same of a Kubernetes resource.
pub initial_workload-submit_workload :
    (values before old : ClusterResource) (id : Text) (w : World)
    → is_blank id ≡ false
    → find (has_name id) w.creator.cluster.cluster_resources ≡ some old
    → values.name ≡ id
    → initial_workload (some id) (submit_workload (some id) values w).creator before ≡ values
unfolding submit_workload initial_workload update_custom_k8s_resources
initial_workload-submit_workload values before old id w named found same = rw (
  named,
  initial_workload,
  find-set_at_self (has_name id) values w.creator.cluster.cluster_resources old
      ((==_iff values.name id).1 same) found,
)
