-- ===== src/Dialogs/NodeDialogs/Edits.antt =====
-- What a submit of EditNodeDialog.tsx does, and a poll of the page of nodes.
use makoon.Prelude.{◌≡◌, refl, true, false, some, List, Text}
use makoon.Model.{ClusterNode, change_resources, ClusterNodeVmStatus}
use makoon.Api.{change_node_resources, cluster_node_vms_status}
use makoon.World.{World, Failure}
use makoon.Async.{Outcome, resolved, rejected, gets, request, ◌>>=◌}
use makoon.Async.Run.{Server, run, Settles, Settles-api_call, after_call}
use makoon.Management.Actions.{cluster_name_of, is_blank, update_cluster_node_vm_statuses}
use makoon.Management.Members.{index_of_name, put_node, node_at}
use makoon.Management.Members.Runs.{change_resources_of_node_locks}
use makoon.Management.Polling.{on_management}
use makoon.Dialogs.{FormHelpers, on_dialog, close}
use makoon.Dialogs.NodeDialogs.{NodeFormModel, changed, submit_edit, poll_nodes}

module _ {S : Type 0} (serve : Server S) (formik : FormHelpers) where
  -- Where neither cores nor memory have been edited, a submit of the dialog asks the server nothing
  -- and closes the dialog.
  pub submit_edit_unchanged :
      (values : NodeFormModel) (stored : ClusterNode) (w : World) (s : S)
      → changed values stored ≡ false
      → Settles serve
          (submit_edit formik values (some stored))
          w
          s
          (resolved tt)
          (on_dialog (λ d. close (formik.set_submitting false (formik.reset_form d))) w)
          s
  unfolding submit_edit run
  submit_edit_unchanged values stored w s h k = rw (run, h) refl

  -- Where they have been and the server refuses the change, the submit fails with its error: the
  -- dialog stays open, its form is not reset, and the node stays locked.
  pub submit_edit_refused :
      (values : NodeFormModel) (stored node : ClusterNode) (nodes : List ClusterNode) (w : World)
      (s s' : S) (f : Failure)
      → changed values stored ≡ true
      → w.management.cluster.nodes ≡ some nodes
      → node_at (index_of_name stored.name nodes) nodes w.management ≡ some node
      → serve
          (change_node_resources
            (cluster_name_of w)
            stored.name
            (record { cores = values.cores; memory = values.memory }))
          s
        ≡ (rejected f, s')
      → Settles serve
          (submit_edit formik values (some stored))
          w
          s
          (rejected f)
          (on_management
            (put_node
              (index_of_name stored.name nodes)
              (record node { lock = some change_resources })
              nodes)
            w)
          s'
  unfolding submit_edit run
  submit_edit_refused values stored node nodes w s s' f c h a e k =
      rw (run, c)
        (change_resources_of_node_locks serve stored.name values.cores values.memory nodes node w s
          s' (rejected f) h a e _)

  -- With an open cluster, a poll of the page of nodes whose first request is refused makes no
  -- further one, and fails with the server's error.
  pub poll_nodes_refused :
      (vms_key kube_key nodes_key : Text) (w : World) (s s' : S) (f : Failure)
      → is_blank (cluster_name_of w) ≡ false
      → serve (cluster_node_vms_status (cluster_name_of w)) s ≡ (rejected f, s')
      → let o : Outcome (List ClusterNodeVmStatus) = rejected f in
        Settles serve
          (poll_nodes vms_key kube_key nodes_key)
          w
          s
          (rejected f)
          (after_call vms_key o w)
          s'
  unfolding poll_nodes update_cluster_node_vm_statuses run
  poll_nodes_refused vms_key kube_key nodes_key w s s' f named e k =
      rw (run, named)
        (rw
          (Settles-api_call serve
            (gets cluster_name_of >>= λ name. request (cluster_node_vms_status name)) vms_key w s
            (rejected f) s' (λ k'. rw (run, e) refl))
          refl)
