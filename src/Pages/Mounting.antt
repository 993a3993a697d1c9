-- ===== src/Pages/Mounting.antt =====
-- What the pages of web/src-web/src/views ask for when they are first shown, the polls that follow,
-- and what the login shows.
use makoon.Prelude.{◌≡◌, refl, Bool, true, Option, none, some, Text, units, if◌then◌else◌}
use makoon.World.{World}
use makoon.Async.{Async, ◌>>◌}
use makoon.Management.Actions.{
  update_cluster_node_vm_statuses, update_cluster_kube_statuses, update_nodes_if_there_is_any_lock,
  update_apps_status,
}
use makoon.ClustersList.{load_clusters}
use makoon.Dialogs.{Button}
use makoon.Dialogs.NodeDialogs.{poll_nodes}

-- nodes/index.tsx: the first call.
unfoldable pub mount_nodes : Text → Text → Async (Unit {0})
mount_nodes vms_key kube_key = do
  update_cluster_node_vm_statuses vms_key
  update_cluster_kube_statuses kube_key

-- apps/index.tsx: the first call, and the poll.
unfoldable pub mount_apps : Async (Unit {0})
mount_apps = update_apps_status

unfoldable pub poll_apps : Async (Unit {0})
poll_apps = update_apps_status

-- ClusterListPanel.tsx: the first call.
unfoldable pub mount_clusters : Async (Unit {0})
mount_clusters = load_clusters

-- views/login/index.tsx: the text of a refused login, and the button "Sign in" with whether it spins.
unfoldable pub login_message : World → Option Text
login_message w = if w.login_form.login_error then some (units "Cannot login to Proxmox") else none

unfoldable pub sign_in : Bool → World → Button × Bool
sign_in is_valid w = (record { shown = true; enabled = is_valid }, w.dialog.submitting)

-- The poll of the page of nodes is its first call again, followed by the poll for locked nodes.
pub poll_nodes-mount_nodes :
    (vms_key kube_key nodes_key : Text)
    → poll_nodes vms_key kube_key nodes_key
      ≡ (mount_nodes vms_key kube_key >> update_nodes_if_there_is_any_lock nodes_key)
unfolding poll_nodes mount_nodes
poll_nodes-mount_nodes vms_key kube_key nodes_key = refl
