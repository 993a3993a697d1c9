-- ===== src/Management.antt =====
-- web/src-web/src/store/cluster-management-store.ts: what the store shows of the open cluster. Its
-- asynchronous methods are in `Actions`, `Apps` and `Members`.
pub mod Actions
pub mod Apps
pub mod Members
pub mod Polling
pub mod Changes
pub mod Refreshes
pub mod Tables
use makoon.Prelude.{
  ℕ, ◌+◌, ◌*◌, Bool, Option, none, some, List, [], ◌∷◌, ◌++◌, map, foldl, length, Text, units,
  text_eq, int_eq, ◌==◌, if◌then◌else◌,
}
use makoon.Prelude.Int.{ℤ, ◌-ℤ◌}
use makoon.Js.Array.{find, filter, sort}
use makoon.Model.{
  HelmApp, ClusterResource, ClusterNode, ClusterNodeType, master, worker, ClusterNodeVmStatus,
  ClusterNodeStatus, AppStatus, AppStatusType, KubeStatus, VmStatus, Cluster,
}
use makoon.Model.Names.{node_type_eq, option_beq}
use makoon.World.{Failure, type_error, ClusterManagementStore}
use makoon.Async.{Outcome, resolved, rejected}

abbrev vm_id_asc : ClusterNode → ClusterNode → ℤ
vm_id_asc a b = a.vm_id -ℤ b.vm_id

pub record NodeWithStatus : Type 0 where
  pub node : ClusterNode
  pub open node use *
  pub vm_status : Option VmStatus
  pub kube_status : Option KubeStatus

pub record HelmAppWithStatus : Type 0 where
  pub app : HelmApp
  pub open app use *
  pub status : Option AppStatusType

-- `xs || []`.
abbrev pub or_empty {ℓ} : {A : Type ℓ} → Option (List A) → List A
or_empty none = []
or_empty (some xs) = xs

-- `x?.status ?? null`.
abbrev status_of {ℓ κ} : {A : Type ℓ} {B : Type κ} → (A → B) → Option A → Option B
status_of f none = none
status_of f (some a) = some (f a)

module _ (s : ClusterManagementStore) where
  unfoldable pub with_status : ClusterNode → NodeWithStatus
  with_status e = record {
    node = e;
    vm_status =
        status_of (λ x. x.status)
          (find (λ (x : ClusterNodeVmStatus). x.vmid == e.vm_id) s.cluster_node_vm_statuses);
    kube_status =
        status_of (λ x. x.status)
          (find (λ (x : ClusterNodeStatus). x.name == s.cluster.cluster_name ++ units "-" ++ e.name)
            s.cluster_kube_statuses);
  }

  unfoldable pub nodes_with_status : ClusterNodeType → List NodeWithStatus
  unfolding with_status
  nodes_with_status t =
      map with_status (sort vm_id_asc (filter (λ e. e.node_type == t) (or_empty s.cluster.nodes)))

  abbrev pub master_nodes_with_status : List NodeWithStatus
  master_nodes_with_status = nodes_with_status master

  abbrev pub worker_nodes_with_status : List NodeWithStatus
  worker_nodes_with_status = nodes_with_status worker

  abbrev app_status_of : HelmApp → HelmAppWithStatus
  app_status_of e = record {
    app = e;
    status =
        status_of (λ x. x.status)
          (find (λ (x : AppStatus). option_beq (some x.id) e.id) s.helm_apps_status);
  }

  unfoldable pub helm_apps_with_status : List HelmAppWithStatus
  helm_apps_with_status = map app_status_of (or_empty s.cluster.helm_apps)

  abbrev pub helm_apps : List HelmApp
  helm_apps = or_empty s.cluster.helm_apps

  abbrev pub k8s_resources : List ClusterResource
  k8s_resources = or_empty s.cluster.cluster_resources

  unfoldable pub cpu_sum : ℕ
  cpu_sum = foldl (λ acc i. acc + i.cores) 0 (or_empty s.cluster.nodes)

  unfoldable pub ram_sum : ℕ
  ram_sum = foldl (λ acc i. acc + i.memory) 0 (or_empty s.cluster.nodes)

  -- `none` is NaN: before a load the disk size is undefined.
  unfoldable pub disks_size_sum : Option ℕ
  disks_size_sum = elim s.cluster.disk_size [
    | none ↦ none
    | some size ↦ some (length (or_empty s.cluster.nodes) * size)
  ]

  -- Before a load `cluster.nodes` is undefined, and `find` of it throws.
  unfoldable pub find_node : ℤ → Outcome (Option ClusterNode)
  find_node id = elim s.cluster.nodes [
    | none ↦ rejected type_error
    | some nodes ↦ resolved (find (λ e. e.vm_id == id) nodes)
  ]
