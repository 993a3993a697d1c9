-- ===== src/Tests/Checked.antt =====
-- A checker of forms that does what the documentation of Yup says, and the theorems on forms at small
-- values.
use makoon.Prelude.{
  ◌≤◌, ◌≡◌, ◌≢◌, ◌↔◌, ◌⊎◌, refl, arith, Bool, true, false, not, ◌&&◌, ◌||◌, none, List, [], ◌∷◌,
  ◌++◌, length, is_empty, leb, Text, units, text_eq, ◌==◌,
}
use makoon.Prelude.Int.{pos, ◌≤ℤ◌, is_positive}
use makoon.Js.Text.{trim}
use makoon.Js.Array.{push}
use makoon.Js.Number.{digits}
use makoon.Js.Regex.{test}
use makoon.Nodes.{create_next_node_definition}
use makoon.Creator.{ClusterSettingsModel, cluster_settings}
use makoon.Wizard.Forms.{next_of_form, submit_cluster}
use makoon.Dialogs.NodeDialogs.{NodeFormModel}
use makoon.Wizard.Dialogs.{submit_app}
use makoon.Forms.{
  FieldValue, undefined, text, numeric, Rule, required, strict, trims, positive, min, max, matches,
  passes, Kind, string, number, Mode, FieldSchema, strictly, seen, Yup, IsDocumented, keeps_fields,
  at_least, at_most,
}
use makoon.Forms.Schemas.{
  schema_add_node, cluster_schema, settings_schema, schema_add_helm_app, schema_add_workload,
}
use makoon.Forms.Inputs.{Input}
use makoon.Forms.Inputs.Views.{
  node_inputs, installed_app_inputs, cluster_inputs, settings_inputs, workload_inputs,
}
use makoon.Forms.Values.{node_values, cluster_values, helm_app_values}
use makoon.Forms.Nodes.{IsNodeForm, is_valid-schema_add_node}
use makoon.Forms.Clusters.{IsClusterForm, next_of_form-IsClusterForm}
use makoon.Forms.Releases.{is_valid-schema_add_helm_app}
use makoon.Forms.Proposals.Valid.{is_valid-create_next_node_definition}
use makoon.Wizard.Initials.{shown_of}
use makoon.Tests.Data.{an_app, first_master, no_floats, page}

abbrev on_text : Mode → Rule → Text → Bool
on_text m required t = not (is_empty (seen m t))
on_text strictly trims t = trim t == t
on_text m (min n) t = leb n (length (seen m t))
on_text m (max n) t = leb (length (seen m t)) n
on_text m (matches p) t = test p (seen m t)
on_text m (passes p) t = p (seen m t)
on_text m r t = true

abbrev checks : Kind → Mode → Rule → FieldValue → Bool
checks k m strict v = true
checks k m required undefined = false
checks k m r undefined = true
checks string m r (text t) = on_text m r t
checks number m required (numeric z) = true
checks number m (min n) (numeric z) = at_least n z
checks number m (max n) (numeric z) = at_most n z
checks number m positive (numeric z) = is_positive z
checks k m r v = false

abbrev pub checker : Yup
checker = record { holds = checks; is_valid = keeps_fields checks }

pub checker-IsDocumented : IsDocumented checker
checker-IsDocumented = record {
  is_valid-keeps = λ shape values. refl;
  is_strict = λ k m v. refl;
  required_missing = λ k m. refl;
  required_text = λ m t. refl;
  required_number = λ m n. refl;
  trims_strictly = λ t. refl;
  trims_first = λ t. refl;
  trims_missing = refl;
  min_text = λ m n t. refl;
  max_text = λ m n t. refl;
  matches_text = λ m p t. refl;
  passes_text = λ m p t. refl;
  min_number = λ m n z. refl;
  max_number = λ m n z. refl;
  positive_number = λ m z. refl;
}

abbrev a_node_form : NodeFormModel
a_node_form = record {
  name = units "master-1";
  vm_id = pos 100;
  cores = 2;
  memory = 2048;
  ip_address = units "10.0.0.9";
  storage_pool = units "local";
}

is_valid-schema_add_node_example :
    (checker.is_valid schema_add_node (node_values a_node_form) ≡ true) ↔ IsNodeForm a_node_form
is_valid-schema_add_node_example = is_valid-schema_add_node checker checker-IsDocumented a_node_form

-- The largest accepted id does not fit into 32 bits.
abbrev too_large : NodeFormModel
too_large = record a_node_form { vm_id = pos 4294967296 }

too_large_accepted : checker.is_valid schema_add_node (node_values too_large) ≡ true
too_large_accepted = (is_valid-schema_add_node checker checker-IsDocumented too_large).1 (
  refl,
  omega arith,
  omega arith,
  omega arith,
  omega arith,
  omega arith,
  omega arith,
  omega arith,
  λ e. cc,
)

abbrev a_cluster_form : ClusterSettingsModel
a_cluster_form = record {
  cluster_name = units "lab";
  node_username = units "ubuntu";
  node_password = units "secret";
  network = record {
    gateway = units "10.0.0.1";
    subnet_mask = 24;
    dns = units "8.8.8.8";
    bridge = units "vmbr0";
  };
  disk_size = 10;
}

is_valid-schema_add_helm_app_example :
    ((checker.is_valid schema_add_helm_app (helm_app_values an_app) ≡ true) ↔ (
      (trim an_app.release_name ≢ [])
      × (trim an_app.chart_name ≢ [])
      × (trim an_app.namespace ≢ [])))
    × ((submit_app none an_app page).creator.cluster.helm_apps
        ≡ push page.creator.cluster.helm_apps an_app)
is_valid-schema_add_helm_app_example =
    is_valid-schema_add_helm_app checker checker-IsDocumented an_app page

master_digits : first_master.name ≡ units "master" ++ b'-' ∷ digits 1
unfolding digits
master_digits = refl

master_address : first_master.ip_address ≡ units "10.0.0" ++ b'.' ∷ digits 9
unfolding digits
master_address = refl

master_valid : checker.is_valid schema_add_node (node_values (shown_of first_master)) ≡ true
master_valid = (is_valid-schema_add_node checker checker-IsDocumented (shown_of first_master)).1 (
  refl,
  omega arith,
  omega arith,
  omega arith,
  omega arith,
  omega arith,
  omega arith,
  omega arith,
  λ e. cc,
)

is_valid-create_next_node_definition_example :
    let next = create_next_node_definition no_floats first_master (pos 3) in
    (checker.is_valid schema_add_node (node_values (shown_of next)) ≡ true)
    ↔ ((length next.name ≤ 128) × (next.vm_id ≤ℤ pos 4294967296))
is_valid-create_next_node_definition_example =
    is_valid-create_next_node_definition checker checker-IsDocumented no_floats first_master 3
      (units "master") (units "10.0.0") 1 9 (omega arith) (omega arith) master_digits master_address
      (omega arith) master_valid

next_of_form-IsClusterForm_example :
    let is_valid =
      checker.is_valid (cluster_schema page.clusters_list) (cluster_values a_cluster_form) in
    let v = next_of_form is_valid (submit_cluster (λ w. w) a_cluster_form) page in
    (v.creator ≡ page.creator)
    ⊎ ((cluster_settings v.creator ≡ a_cluster_form)
        × IsClusterForm page.clusters_list a_cluster_form)
next_of_form-IsClusterForm_example =
    next_of_form-IsClusterForm checker checker-IsDocumented (λ w. w) a_cluster_form page (λ v. refl)

-- Every field of a schema can be filled in the form, and the sign of a required field is right.
abbrev bool_beq : Bool → Bool → Bool
bool_beq true b = b
bool_beq false b = not b

abbrev asks : List (Rule × Text) → Bool
asks [] = false
asks ((required, _) ∷ rs) = true
asks ((r, _) ∷ rs) = asks rs

abbrev has_input : List Input → FieldSchema → Bool
has_input [] f = false
has_input (i ∷ is) f = ((i.field == f.name) && bool_beq i.marked (asks f.rules)) || has_input is f

abbrev covers : List Input → List FieldSchema → Bool
covers is [] = true
covers is (f ∷ fs) = has_input is f && covers is fs

node_inputs_cover : covers node_inputs schema_add_node ≡ true
node_inputs_cover = refl

app_inputs_cover : covers (installed_app_inputs false false) schema_add_helm_app ≡ true
app_inputs_cover = refl

cluster_inputs_cover : covers cluster_inputs (cluster_schema page.clusters_list) ≡ true
cluster_inputs_cover = refl

settings_inputs_cover : covers settings_inputs settings_schema ≡ true
settings_inputs_cover = refl

workload_inputs_cover : covers (workload_inputs false false) schema_add_workload ≡ true
workload_inputs_cover = refl
