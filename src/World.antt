-- ===== src/World.antt =====
-- The state of the page: the stores of web/src-web/src/store/*.ts, one object each, and the state of
-- components. `World` holds them together, since one asynchronous method writes to several.
pub mod Loaders
use makoon.Prelude.{ℕ, Bool, Option, List, Text}
use makoon.Model.{
  HelmApp, ClusterResource, ClusterNode, ClusterNodeVmStatus, ClusterNodeStatus, AppStatus, Cluster,
  LogEntry, ClusterRequest, ClusterHeader, AvailableStorage, AvailableNetwork, AvailableOsImage,
  AvailableKubeVersion,
}

-- What a promise is rejected with.
pub data Failure : Type 0 where
  -- an `AxiosError`, with the status and the data of its response, if there is one
  axios_error : Option ℕ → Option Text → Failure
  -- a `TypeError` of the program's own code
  type_error : Failure

-- What `error` of the application's store holds: it is declared a string, but `apiCall` writes the
-- error object itself.
pub data ErrorValue : Type 0 where
  message : Text → ErrorValue
  object : Failure → ErrorValue

-- application-store.ts
pub record ApplicationStore : Type 0 where
  pub error : ErrorValue

-- processing-indicator-store.ts: `loaders`, an object used as a dictionary.
pub record ProcessingIndicatorStore : Type 0 where
  pub loaders : List (Text × Bool)

-- cluster-creator-store.ts
pub record ClusterCreatorStore : Type 0 where
  pub cluster : ClusterRequest
  -- `{}` until the default cluster has been generated
  pub default_master_node : Option ClusterNode

-- cluster-management-store.ts. `stray_node` is the property "-1" of the array `cluster.nodes`, which
-- an assignment at the index of a failed search makes.
pub record ClusterManagementStore : Type 0 where
  pub cluster_node_vm_statuses : List ClusterNodeVmStatus
  pub cluster_kube_statuses : List ClusterNodeStatus
  pub helm_apps_status : List AppStatus
  pub cluster : Cluster
  pub stray_node : Option ClusterNode
  pub logs : List LogEntry

-- clusters-list-store.ts
pub record ClustersListStore : Type 0 where
  pub clusters : List ClusterHeader

-- views/cluster-creator/index.tsx: the component state of the wizard.
pub record Wizard : Type 0 where
  pub active_index : ℕ
  pub show_provisioning_confirmation : Bool
  pub cluster_request_in_progress : Bool
  pub next_disabled : Bool
  pub previous_disabled : Bool
  -- `props.onHide` has been called
  pub hidden : Bool

pub data SubmitMode : Type 0 where
  save install : SubmitMode

-- The component state of a page with a dialog, one dialog at a time:
-- views/clusters-management/components/*. `selected` is the id that the page has selected, and
-- `submitting` is what the form library keeps of the dialog's form.
pub record Dialog : Type 0 where
  pub visible : Bool
  pub selected : Option Text
  pub delete_confirm : Bool
  pub submit_mode : Option SubmitMode
  pub last_error : Text
  pub submitting : Bool

-- What the program uses of the browser: the route, and `localStorage`.
pub record Browser : Type 0 where
  pub location : Text
  pub local_storage : List (Text × Text)

-- views/login/index.tsx
pub record LoginForm : Type 0 where
  pub login_error : Bool
  pub remember_ip : Bool
  pub remember_username : Bool

-- What the forms offer for a choice, each list the state of the component that has the form, and the
-- address that components/MainMenu.tsx shows. `os_images` and `kube_versions` are undefined at first.
pub record Choices : Type 0 where
  pub nodes : List Text
  pub storages : List AvailableStorage
  pub os_image_storages : List AvailableStorage
  pub networks : List AvailableNetwork
  pub os_images : Option (List AvailableOsImage)
  pub kube_versions : Option (List AvailableKubeVersion)
  pub host_ip : Text
  -- how many wizard steps, dialogs for a node and menus have been mounted, so the number of the last one:
  -- the lists are the state of that component, and another one starts with lists of its own
  pub step_instance : ℕ
  pub dialog_instance : ℕ
  pub menu_instance : ℕ

pub record World : Type 0 where
  pub application : ApplicationStore
  pub indicator : ProcessingIndicatorStore
  pub creator : ClusterCreatorStore
  pub management : ClusterManagementStore
  pub clusters_list : ClustersListStore
  pub wizard : Wizard
  pub dialog : Dialog
  pub browser : Browser
  pub login_form : LoginForm
  pub choices : Choices
