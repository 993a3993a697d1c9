-- ===== src/Loads.antt =====
-- What the forms and the menu load for a choice: the dialogs for a node, the first two steps of the
-- wizard and components/MainMenu.tsx. A call of `apiCall` without a key takes the random one as an
-- argument. Each list is the state of one component: it is there from the mounting of the component on,
-- and a call that a component made has no effect once another one has been mounted in its place.
pub mod Orders
pub mod Late
use makoon.Prelude.{ℕ, ◌+◌, nat_eq, ◌==◌, none, some, [], Text, if◌then◌else◌}
use makoon.Api.{
  get_logged_in_host_ip, nodes, bridges, storage, iso, images, os_images, kube_versions,
}
use makoon.World.{World, Choices}
use makoon.Async.{Async, pure, gets, modify, request, detach, ◌>>=◌, ◌>>◌}
use makoon.Async.Call.{api_call}
use makoon.Management.Actions.{is_blank}

abbrev pub choose : (Choices → Choices) → World → World
choose f w = record w { choices = f w.choices }

-- What the `set` functions of a component do: nothing once the component is not the one that is mounted.
abbrev pub choose_in : (Choices → ℕ) → ℕ → (Choices → Choices) → World → World
choose_in instance_of n f = choose (λ c. if instance_of c == n then f c else c)

abbrev pub of_step : Choices → ℕ
of_step c = c.step_instance

abbrev pub of_dialog : Choices → ℕ
of_dialog c = c.dialog_instance

abbrev pub of_menu : Choices → ℕ
of_menu c = c.menu_instance

-- A step of the wizard is mounted, in the place of the one before: its `useState` calls.
abbrev pub mount_step : Choices → Choices
mount_step c = record c {
  step_instance = c.step_instance + 1;
  nodes = [];
  os_image_storages = [];
  networks = [];
  os_images = none;
  kube_versions = none;
}

-- A dialog for a node is mounted.
abbrev pub mount_dialog : Choices → Choices
mount_dialog c = record c { dialog_instance = c.dialog_instance + 1; storages = [] }

-- A menu is mounted, as with each page.
abbrev pub mount_menu : Choices → Choices
mount_menu c = record c { menu_instance = c.menu_instance + 1; host_ip = [] }

abbrev pub wizard_node : World → Text
wizard_node w = w.creator.cluster.node

abbrev pub open_node : World → Text
open_node w = w.management.cluster.node

-- The first call of CreatorNodeDialog.tsx, and with the node of the open cluster that of
-- AddNodeDialog.tsx and of EditNodeDialog.tsx. Here and below `n` is the number of the component that
-- makes the call.
unfoldable pub load_storages : ℕ → (World → Text) → Text → Async (Unit {0})
load_storages n node_of key = do
  found ← api_call (do node ← gets node_of; request (storage node images)) key
  modify (choose_in of_dialog n (λ c. record c { storages = found }))

-- settings/index.tsx: the first call.
unfoldable pub load_nodes : ℕ → Text → Async (Unit {0})
load_nodes n key = do
  found ← api_call (request nodes) key
  modify (choose_in of_step n (λ c. record c { nodes = found }))

abbrev pub set_os_image_storages : ℕ → Text → Text → Async (Unit {0})
set_os_image_storages n node key = do
  found ← api_call (request (storage node iso)) key
  modify (choose_in of_step n (λ c. record c { os_image_storages = found }))

abbrev load_os_image_storages : ℕ → Text → Async (Unit {0})
load_os_image_storages n key = do
  found ← api_call (do node ← gets wizard_node; request (storage node iso)) key
  modify (choose_in of_step n (λ c. record c { os_image_storages = found }))

abbrev load_os_images : ℕ → Text → Async (Unit {0})
load_os_images n key = do
  found ← api_call (request os_images) key
  modify (choose_in of_step n (λ c. record c { os_images = some found }))

abbrev load_kube_versions : ℕ → Text → Async (Unit {0})
load_kube_versions n key = do
  found ← api_call (request kube_versions) key
  modify (choose_in of_step n (λ c. record c { kube_versions = some found }))

-- The function given to `autorun`: three calls that nobody awaits, the first one only with a node.
unfoldable pub load_settings : ℕ → Text → Text → Text → Async (Unit {0})
load_settings n storages_key images_key versions_key = do
  node ← gets wizard_node
  if is_blank node then pure tt else detach (load_os_image_storages n storages_key)
  detach (load_os_images n images_key)
  detach (load_kube_versions n versions_key)

-- `onChange` of the choice of a node, where the form library takes the value first.
unfoldable pub change_node : ℕ → (Text → World → World) → Text → Text → Async (Unit {0})
change_node n handle_change node key = do
  modify (handle_change node)
  set_os_image_storages n node key

abbrev pub fetch_networks : ℕ → Text → Text → Async (Unit {0})
fetch_networks n node key = do
  found ← api_call (request (bridges node)) key
  modify (choose_in of_step n (λ c. record c { networks = found }))

-- cluster/index.tsx: the effect on a change of the node, which does not await its call.
unfoldable pub load_networks : ℕ → Text → Text → Async (Unit {0})
load_networks n node key = if is_blank node then pure tt else detach (fetch_networks n node key)

-- The first call of components/MainMenu.tsx, without `apiCall`.
unfoldable pub load_host_ip : ℕ → Async (Unit {0})
load_host_ip n = do
  found ← request get_logged_in_host_ip
  modify (choose_in of_menu n (λ c. record c { host_ip = found }))
