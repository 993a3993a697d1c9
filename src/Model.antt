-- ===== src/Model.antt =====
-- web/src-web/src/api/model.ts: the values that the front end and the server exchange.
-- An optional field is an `Option`. `Cluster` is also the state of a page before anything has been
-- loaded, `{clusterName: ""}`, so each other field that the code tests, or reads before a load, is
-- an `Option` too.
pub mod Names
use makoon.Prelude.{ℕ, Bool, Option, List, Text}
use makoon.Prelude.Int.{ℤ}

pub record HelmApp : Type 0 where
  pub id : Option Text
  pub chart_name : Text
  pub chart_version : Option Text
  pub repository : Text
  pub release_name : Text
  pub namespace : Text
  pub values : Option Text
  pub wait : Option Bool

pub record ClusterResource : Type 0 where
  pub id : Text
  pub name : Text
  pub content : Text

pub data ClusterNodeType : Type 0 where
  master worker : ClusterNodeType

pub data ClusterNodeLock : Type 0 where
  create delete change_resources : ClusterNodeLock

pub record ClusterNode : Type 0 where
  pub vm_id : ℤ
  pub name : Text
  pub cores : ℕ
  pub memory : ℕ
  pub ip_address : Text
  pub storage_pool : Text
  pub node_type : ClusterNodeType
  pub lock : Option ClusterNodeLock

pub record Network : Type 0 where
  pub gateway : Text
  pub subnet_mask : ℕ
  pub dns : Text
  pub bridge : Text

pub record KeyPair : Type 0 where
  pub private_key : Text
  pub public_key : Text

pub data ActionLogLevel : Type 0 where
  info error : ActionLogLevel

pub record LogEntry : Type 0 where
  pub date : Text
  pub cluster_name : Text
  pub message : Text
  pub level : ActionLogLevel

pub data ClusterStatus : Type 0 where
  pending creating sync out_of_sync destroying error : ClusterStatus

pub record Cluster : Type 0 where
  pub node : Text
  pub cluster_name : Text
  pub os_image : Option Text
  pub os_image_storage : Option Text
  pub kube_version : Option Text
  pub cluster_config : Text
  pub ssh_key : Option KeyPair
  pub node_username : Text
  pub node_password : Text
  pub helm_apps : Option (List HelmApp)
  pub cluster_resources : Option (List ClusterResource)
  pub disk_size : Option ℕ
  pub nodes : Option (List ClusterNode)
  pub network : Option Network
  pub status : Option ClusterStatus

pub record ClusterRequest : Type 0 where
  pub os_image : Text
  pub os_image_storage : Text
  pub kube_version : Text
  pub node : Text
  pub cluster_name : Text
  pub ssh_key : KeyPair
  pub node_username : Text
  pub node_password : Text
  pub helm_apps : List HelmApp
  pub cluster_resources : List ClusterResource
  pub disk_size : ℕ
  pub nodes : List ClusterNode
  pub network : Network

pub record ClusterHeader : Type 0 where
  pub name : Text
  pub nodes_count : ℕ
  pub cores_sum : ℕ
  pub memory_sum : ℕ
  pub disk_size_sum : ℕ
  pub status : ClusterStatus

pub data KubeStatus : Type 0 where
  ready not_ready unknown : KubeStatus

pub record ClusterNodeStatus : Type 0 where
  pub name : Text
  pub status : KubeStatus

pub data AppStatusType : Type 0 where
  unknown deployed uninstalled superseded failed uninstalling : AppStatusType
  pending_install pending_upgrade pending_rollback not_installed : AppStatusType

pub record AppStatus : Type 0 where
  pub id : Text
  pub status : AppStatusType

pub record LoginRequest : Type 0 where
  pub host : Text
  pub port : ℕ
  pub username : Text
  pub password : Text

pub data VmStatus : Type 0 where
  running stopped : VmStatus

pub record ClusterNodeVmStatus : Type 0 where
  pub vmid : ℤ
  pub status : VmStatus

pub record AvailableStorage : Type 0 where
  pub storage : Text
  pub avail : Option ℕ
  pub used : Option ℕ
  pub total : Option ℕ

pub record AvailableNetwork : Type 0 where
  pub iface : Text
  pub address : Option Text

pub record ChangeNodeResourcesRequest : Type 0 where
  pub cores : ℕ
  pub memory : ℕ

pub record AvailableOsImage : Type 0 where
  pub name : Text
  pub url : Text

pub record AvailableKubeVersion : Type 0 where
  pub version : Text
