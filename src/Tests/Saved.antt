-- ===== src/Tests/Saved.antt =====
-- What the wizard sends, the nodes that an edit can lose, and the totals and rows of a page.
use makoon.Prelude.{◌≡◌, ◌≢◌, ◌+◌, ◌++◌, refl, int_eq, true, none, [], ◌∷◌, map, units}
use makoon.Prelude.Int.{pos}
use makoon.Js.Array.{find, filter}
use makoon.Js.Number.{digits}
use mathlib.Core.List.{Perm}
use makoon.Model.{ClusterNode}
use makoon.World.{World, ClusterCreatorStore}
use makoon.Async.{end}
use makoon.Async.Run.{run, after_call}
use makoon.Creator.{
  SettingsModel, ClusterSettingsModel, settings, cluster_settings, find_node, update_node,
  delete_node, add_helm_app,
}
use makoon.Wizard.{requested, start_cluster_provisioning}
use makoon.Wizard.Forms.{next_of_form, submit_settings, submit_cluster}
use makoon.Wizard.Provisioning.{start_cluster_provisioning-next_of_form, after_provisioning}
use makoon.Wizard.Dialogs.TakenId.{delete_node-update_node}
use makoon.Management.{
  NodeWithStatus, cpu_sum, ram_sum, disks_size_sum, master_nodes_with_status,
  worker_nodes_with_status,
}
use makoon.Management.Tables.{total, cpu_sum-tables}
use makoon.Pages.Rows.{totals}
use makoon.Tests.Data.{an_app, first_master, first_worker, locked_worker, page, refusal, refusing}

abbrev pub chosen : SettingsModel
chosen = record {
  node = units "pve";
  os_image = units "ubuntu";
  os_image_storage = units "local";
  kube_version = units "1.27";
}

abbrev pub described : ClusterSettingsModel
described = record {
  cluster_name = units "lab";
  node_username = units "ubuntu";
  node_password = units "secret";
  network = record {
    gateway = units "10.0.0.1";
    subnet_mask = 24;
    dns = units "10.0.0.1";
    bridge = units "vmbr0";
  };
  disk_size = 20;
}

abbrev both_saved : World
unfolding next_of_form
both_saved =
    next_of_form true (submit_cluster (λ w. w) described)
      (next_of_form true (submit_settings (λ w. w) chosen) page)

-- After both steps an app is added.
abbrev filled : World
filled = record both_saved { creator = add_helm_app an_app both_saved.creator }

start_cluster_provisioning-next_of_form_example :
    (settings filled.creator ≡ chosen)
    × (cluster_settings filled.creator ≡ described)
    × (run refusing (start_cluster_provisioning (units "k") (λ _. end)) filled 0 ≡ (
      after_provisioning {A = Unit {0}} refusal (
          after_call {A = Unit {0}}
            (units "k")
            refusal
            (record filled { wizard = requested filled.wizard })),
      1,
    ))
unfolding next_of_form add_helm_app settings cluster_settings
start_cluster_provisioning-next_of_form_example =
    start_cluster_provisioning-next_of_form refusing (units "k") (λ w. w) chosen described page
      filled 0 1 refusal (λ w. refl) refl refl refl

abbrev renumbered : ClusterNode
renumbered = record first_master { vm_id = pos 101 }

abbrev both_numbered : ClusterCreatorStore
both_numbered = update_node (pos 100) renumbered page.creator

delete_node-update_node_example :
    (find_node (pos 101) page.creator ≢ none)
    × (find_node (pos 100) (delete_node (pos 101) both_numbered) ≡ none)
    × (find_node (pos 101) (delete_node (pos 101) both_numbered) ≡ none)
unfolding find_node find filter
delete_node-update_node_example =
    delete_node-update_node (pos 100) (pos 101) first_master first_worker renumbered page.creator
      refl refl refl refl

cpu_sum-tables_example :
    (cpu_sum page.management
      ≡ total (λ (r : NodeWithStatus). r.node.cores) (master_nodes_with_status page.management)
        + total (λ (r : NodeWithStatus). r.node.cores) (worker_nodes_with_status page.management))
    × (ram_sum page.management
        ≡ total (λ (r : NodeWithStatus). r.node.memory) (master_nodes_with_status page.management)
          + total
              (λ (r : NodeWithStatus). r.node.memory)
              (worker_nodes_with_status page.management))
    × Perm
        (map
          (λ (r : NodeWithStatus). r.node)
          (master_nodes_with_status page.management ++ worker_nodes_with_status page.management))
        (first_master ∷ locked_worker ∷ [])
cpu_sum-tables_example = cpu_sum-tables page.management (first_master ∷ locked_worker ∷ []) refl

totals_of_page :
    totals page.management
    ≡ (units "4", units "cores") ∷ (units "4096", units "MiB") ∷ (units "20", units "GiB") ∷ []
unfolding totals cpu_sum ram_sum disks_size_sum digits
totals_of_page = refl
