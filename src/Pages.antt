-- ===== src/Pages.antt =====
-- The page of logs, the list of clusters and the tables of web/src-web/src/views: what they ask for,
-- what they mark and what they show.
pub mod Rows
pub mod NodesPage
pub mod Mounting
pub mod Elements
use makoon.Prelude.{
  Bool, true, false, not, ◌&&◌, Option, none, some, List, ◌++◌, is_empty, Text, units, text_eq,
  ◌==◌, if◌then◌else◌,
}
use makoon.Js.Array.{find}
use makoon.Js.Number.{to_text}
use makoon.Model.{ClusterResource, ClusterNode}
use makoon.Model.Names.{option_beq}
use makoon.World.{World, Dialog}
use makoon.Async.{Async, pure, gets, ◌>>=◌}
use makoon.Management.{HelmAppWithStatus}
use makoon.Management.Actions.{cluster_name_of, is_blank, load_logs}
use makoon.Management.Members.{clear_logs}
use makoon.ClustersList.{load_clusters}
use makoon.Dialogs.{close, select, is_locked_page}

-- cluster-logs/index.tsx: the effect on a change of the open cluster, and the poll.
unfoldable pub show_logs : Async (Unit {0})
show_logs = do name ← gets cluster_name_of; if is_blank name then pure tt else load_logs name

unfoldable pub poll_logs : Async (Unit {0})
poll_logs = do name ← gets cluster_name_of; load_logs name

-- The button "Clear logs".
abbrev pub click_clear_logs : Async (Unit {0})
click_clear_logs = clear_logs

-- cluster-list/index.tsx: the poll, which ClusterListPanel.tsx makes first too.
unfoldable pub poll_clusters : Async (Unit {0})
poll_clusters = load_clusters

-- EditNodeDialog.tsx: the node that the dialog is shown for, `vmId.toString() == props.vmId`.
unfoldable pub stored_node : Text → List ClusterNode → Option ClusterNode
stored_node vm_id nodes = find (λ (v : ClusterNode). to_text v.vm_id == vm_id) nodes

-- The effect that closes the dialog where its node is gone.
unfoldable pub leave_if_gone : Option ClusterNode → World → World
leave_if_gone none w = record w { dialog = close w.dialog }
leave_if_gone (some n) w = w

-- nodes/index.tsx: a click on a row opens its dialog, unless the page is locked.
unfoldable pub on_select_node : Text → World → World
on_select_node id w =
    if not (is_locked_page w.management) then record w { dialog = select id w.dialog } else w

-- NodesTable.tsx: the text of a node's first column, and whether it has the sign of a lock.
abbrev pub node_label : Text → ClusterNode → Text
node_label cluster_name n = cluster_name ++ units "-" ++ n.name

-- apps/index.tsx: whether a row can be clicked, and what the click does.
abbrev pub is_selectable : HelmAppWithStatus → Bool
is_selectable e = elim e.status [ none ↦ false | some _ ↦ true ]

abbrev pub open_dialog : Option Text → Dialog → Dialog
open_dialog id d = record d { selected = id; visible = true }

abbrev pub non_empty : Option Text → Option Text
non_empty none = none
non_empty (some t) = if is_blank t then none else some t

unfoldable pub on_select_app : HelmAppWithStatus → World → World
on_select_app e w = record w { dialog = open_dialog (non_empty e.id) w.dialog }

-- The button "Add" of the pages of apps and of workloads.
abbrev pub add_element : World → World
add_element w = record w { dialog = open_dialog none w.dialog }

-- The version shown of a chart.
abbrev pub version_shown : Option Text → Text
version_shown none = units "latest"
version_shown (some v) = if is_empty v then units "latest" else v

-- workloads/index.tsx: a click on a row selects its id, and the row that is marked is searched by name.
unfoldable pub on_select_workload : ClusterResource → World → World
on_select_workload r w = record w { dialog = open_dialog (some r.id) w.dialog }

unfoldable pub marked_workload : Option Text → List ClusterResource → Option ClusterResource
marked_workload selected rs = find (λ (r : ClusterResource). option_beq (some r.name) selected) rs

-- components/FormError.tsx: the text shown of an error, if any, of a field that has been visited.
unfoldable pub form_error : Option Text → Bool → Option Text
form_error none touched = none
form_error (some error) touched = if not (is_blank error) && touched then some error else none
