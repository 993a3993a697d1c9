-- ===== src/Pages/Rows.antt =====
-- The rows of the tables, the details and the totals that the pages show, as texts and signs.
use makoon.Prelude.{
  ℕ, Bool, true, false, Option, none, some, List, [], ◌∷◌, ◌++◌, Text, units, if◌then◌else◌,
}
use makoon.Js.Number.{digits, to_text}
use makoon.Model.{
  HelmApp, ClusterNode, Network, LogEntry, ClusterHeader, VmStatus, stopped, AvailableStorage,
  AvailableNetwork,
}
use makoon.World.{ClusterManagementStore, ClustersListStore}
use makoon.Displays.{
  Sign, helm_app_status, vm_status_info, kube_status_info, cluster_status, log_level,
}
use makoon.Displays.Sizes.{to_human_readable_size}
use makoon.Management.{NodeWithStatus, HelmAppWithStatus, cpu_sum, ram_sum, disks_size_sum}
use makoon.Management.Actions.{is_blank, is_locked}
use makoon.ClustersList
use makoon.Pages.{node_label, version_shown}

-- A cell has a text, a sign or nothing.
pub data Cell : Type 0 where
  text : Text → Cell
  sign : Option Sign → Cell

-- `n + " cores"`.
abbrev with_unit : ℕ → Text → Text
with_unit n u = digits n ++ u

abbrev node_cells : Text → ClusterNode → List Cell
node_cells cluster_name n =
    text (node_label cluster_name n)
    ∷ text (to_text n.vm_id)
    ∷ text (with_unit n.cores (units " cores"))
    ∷ text (with_unit n.memory (units " MiB"))
    ∷ text n.ip_address
    ∷ text n.storage_pool
    ∷ []

abbrev is_stopped : Option VmStatus → Bool
is_stopped (some stopped) = true
is_stopped _ = false

-- NodesTable.tsx: whether the row has the sign of a lock, and its cells.
unfoldable pub node_row : Text → NodeWithStatus → Bool × List Cell
node_row cluster_name r = (
  is_locked r.node,
  node_cells cluster_name r.node
      ++ sign (vm_status_info r.vm_status)
        ∷ sign (kube_status_info r.kube_status (is_stopped r.vm_status))
        ∷ [],
)

-- TableNodes.tsx of the wizard, where every address has the same warning beside it.
unfoldable pub creator_node_row : Text → ClusterNode → List Cell
creator_node_row cluster_name n = node_cells cluster_name n

-- apps/index.tsx
unfoldable pub app_row : HelmAppWithStatus → List Cell
app_row r =
    text r.release_name
    ∷ text r.chart_name
    ∷ text (version_shown r.chart_version)
    ∷ text r.namespace
    ∷ sign (helm_app_status r.status)
    ∷ []

-- HelmAppsSection.tsx of the wizard.
unfoldable pub creator_app_row : HelmApp → List Cell
creator_app_row r =
    text r.release_name
    ∷ text r.chart_name
    ∷ text (version_shown r.chart_version)
    ∷ text r.namespace
    ∷ []

-- cluster-logs/index.tsx, where the browser writes the date.
unfoldable pub log_row : (Text → Text) → LogEntry → List Cell
log_row to_locale_string r =
    text r.message ∷ sign (some (log_level r.level)) ∷ text (to_locale_string r.date) ∷ []

-- cluster-list/components/ClusterListPanel.tsx
unfoldable pub cluster_row : ClusterHeader → List Cell
cluster_row r =
    text r.name
    ∷ text (digits r.nodes_count)
    ∷ text (with_unit r.cores_sum (units " cores"))
    ∷ text (with_unit r.memory_sum (units " MiB"))
    ∷ text (with_unit r.disk_size_sum (units " GiB"))
    ∷ sign (some (cluster_status r.status))
    ∷ []

-- cluster-list/components/UsedResourcesPanel.tsx
unfoldable pub used_resources : ClustersListStore → List (Text × Text)
used_resources s =
    (digits (ClustersList.cpu_sum s), units "cores")
    ∷ (digits (ClustersList.ram_sum s), units "MiB")
    ∷ (digits (ClustersList.disks_size_sum s), units "GiB")
    ∷ []

-- What the markup makes of a value that can be undefined.
abbrev or_nothing : Option Text → Text
or_nothing none = []
or_nothing (some t) = t

abbrev number_or : Text → Option ℕ → Text
number_or t none = t
number_or t (some n) = digits n

abbrev of_network : (Network → Text) → Option Network → Text
of_network f none = []
of_network f (some n) = f n

-- components/HiddenPassword.tsx: what is shown before and after the click.
unfoldable pub hidden_password : Bool → Text → Text
hidden_password true password = password
hidden_password false password = units "show"

-- The details of nodes/index.tsx, each with its label, before or after the click on the password.
unfoldable pub details : Bool → ClusterManagementStore → List (Text × Text)
unfolding hidden_password
details show m =
    (units "Username:", m.cluster.node_username)
    ∷ (units "Password:", hidden_password show m.cluster.node_password)
    ∷ (units "Disk size:", number_or [] m.cluster.disk_size ++ units " GiB")
    ∷ (units "MicroK8S version:", or_nothing m.cluster.kube_version)
    ∷ (units "Network bridge:", of_network (λ n. n.bridge) m.cluster.network)
    ∷ (units "Subnet mask:", of_network (λ n. digits n.subnet_mask) m.cluster.network)
    ∷ (units "Gateway:", of_network (λ n. n.gateway) m.cluster.network)
    ∷ (units "DNS server:", of_network (λ n. n.dns) m.cluster.network)
    ∷ []

-- The totals of nodes/index.tsx; the total of an undefined disk size is NaN.
unfoldable pub totals : ClusterManagementStore → List (Text × Text)
totals m =
    (digits (cpu_sum m), units "cores")
    ∷ (digits (ram_sum m), units "MiB")
    ∷ (number_or (units "NaN") (disks_size_sum m), units "GiB")
    ∷ []

-- components/StorageDropdownOption.tsx and the option of a bridge in cluster/index.tsx.
unfoldable pub storage_option : AvailableStorage → List Text
storage_option o =
    o.storage
    ∷ to_human_readable_size o.avail
    ∷ to_human_readable_size o.used
    ∷ to_human_readable_size o.total
    ∷ []

unfoldable pub network_option : AvailableNetwork → Text
network_option o =
    o.iface ++ elim o.address [ none ↦ [] | some a ↦ if is_blank a then [] else units " - " ++ a ]

-- The link of components/MainMenu.tsx, and those of clusters-management/index.tsx.
unfoldable pub proxmox_href : Text → Text
proxmox_href host_ip = units "https://" ++ host_ip ++ units ":8006"

unfoldable pub export_href : Text → ClusterManagementStore → Text
export_href what m = units "/api/v1/clusters/" ++ m.cluster.cluster_name ++ units "/export/" ++ what
