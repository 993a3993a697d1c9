-- ===== src/Forms/Inputs/Views.antt =====
-- The inputs of each form, in the order of the source.
use makoon.Prelude.{Bool, true, false, ◌||◌, none, some, List, [], ◌∷◌, String, units}
use makoon.Forms.Inputs.{InputKind, line, area, secret, choice, counter, Input}

-- An input with the error of its field under it.
abbrev shown : String → String → Bool → InputKind → Bool → Input
shown field label marked kind read_only = record {
  field = units field;
  label = units label;
  marked = marked;
  kind = kind;
  read_only = read_only;
  shows_error = true;
}

-- CreatorNodeDialog.tsx and AddNodeDialog.tsx.
abbrev pub node_inputs : List Input
node_inputs =
    shown "vmId" "VM id" true (counter none none) false
    ∷ shown "name" "Node name" true line false
    ∷ shown "ipAddress" "IP address" true line false
    ∷ shown "storagePool" "Storage pool" true choice false
    ∷ shown "cores" "CPU cores" true (counter (some 1) none) false
    ∷ shown "memory" "Memory (MiB)" true (counter (some 0) (some 1024)) false
    ∷ []

abbrev pub add_node_inputs : List Input
add_node_inputs = node_inputs

-- EditNodeDialog.tsx.
abbrev pub edit_node_inputs : List Input
edit_node_inputs =
    shown "vmId" "VM id" true (counter none none) true
    ∷ shown "name" "Node name" true line true
    ∷ shown "ipAddress" "IP address" true line true
    ∷ shown "storagePool" "Storage pool" true choice true
    ∷ shown "cores" "CPU cores" true (counter (some 1) none) false
    ∷ shown "memory" "Memory (MiB)" true (counter (some 0) (some 1024)) false
    ∷ []

-- CreatorHelmAppDialog.tsx, with `formik.isSubmitting`, and HelmAppDialog.tsx, where the inputs are read
-- only for an installed app too.
abbrev pub app_inputs : Bool → List Input
app_inputs read_only =
    shown "repository" "Repository:" false line read_only
    ∷ shown "chartName" "Chart name:" true line read_only
    ∷ shown "chartVersion" "Version:" false line read_only
    ∷ shown "releaseName" "Release name:" true line read_only
    ∷ shown "namespace" "Namespace:" true line read_only
    ∷ shown "values" "Values:" false area read_only
    ∷ []

abbrev pub creator_app_inputs : Bool → List Input
creator_app_inputs is_submitting = app_inputs is_submitting

abbrev pub installed_app_inputs : Bool → Bool → List Input
installed_app_inputs is_submitting is_to_uninstall = app_inputs (is_submitting || is_to_uninstall)

-- CreatorWorkloadsDialog.tsx: the name can be changed while the form is being submitted.
abbrev pub creator_workload_inputs : Bool → List Input
creator_workload_inputs is_submitting =
    shown "name" "Name:" true line false ∷ shown "content" "Content:" true area is_submitting ∷ []

-- WorkloadsDialog.tsx.
abbrev pub workload_inputs : Bool → Bool → List Input
workload_inputs is_submitting any_operation_in_progress =
    shown "name" "Name:" true line any_operation_in_progress
    ∷ shown "content" "Content:" true area (is_submitting || any_operation_in_progress)
    ∷ []

-- settings/index.tsx.
abbrev pub settings_inputs : List Input
settings_inputs =
    shown "node" "Proxmox node" true choice false
    ∷ shown "osImage" "OS image" true choice false
    ∷ shown "osImageStorage" "OS image storage" true choice false
    ∷ shown "kubeVersion" "MicroK8S version" true choice false
    ∷ []

-- cluster/index.tsx: the bridge has no error under it.
abbrev pub cluster_inputs : List Input
cluster_inputs =
    shown "clusterName" "Cluster name" true line false
    ∷ shown "nodeUsername" "Node Username" true line false
    ∷ shown "nodePassword" "Node Password" true line false
    ∷ shown "diskSize" "Disks size (GiB)" true (counter (some 1) none) false
    ∷ record {
      field = units "network.bridge";
      label = units "Network bridge";
      marked = true;
      kind = choice;
      read_only = false;
      shows_error = false;
    }
    ∷ shown "network.subnetMask" "Subnet mask (CIDR Notation)" true (counter (some 1) none) false
    ∷ shown "network.gateway" "Gateway" true line false
    ∷ shown "network.dns" "DNS server" true line false
    ∷ []

-- login/index.tsx.
abbrev pub login_inputs : Bool → List Input
login_inputs is_submitting =
    shown "host" "Proxmox host:" false line is_submitting
    ∷ shown "username" "Proxmox username:" false line is_submitting
    ∷ shown "password" "Proxmox password:" false secret is_submitting
    ∷ []
