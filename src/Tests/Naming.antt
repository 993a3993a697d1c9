-- ===== src/Tests/Naming.antt =====
-- Proposals for the next node of a small cluster.
use makoon.Prelude.{◌≡◌, refl, inl, All, arith, units}
use makoon.Prelude.Int.{pos, ◌+ℤ◌, ◌<ℤ◌}
use makoon.Js.Number.{digits, to_text}
use makoon.Model.{master, worker}
use makoon.Nodes.{create_next_node_definition, generate_node}
use makoon.Nodes.Fresh.{generate_node-fresh_in_type}
use makoon.Nodes.Naming.{create_next_node_definition_numbered}
use makoon.Nodes.Proposal.{generate_node-latest}
use makoon.Tests.Data.{no_floats, first_master, first_worker, two_nodes}

generate_node-fresh_in_type_example :
    All
      (λ e.
        e.node_type ≡ worker
        → e.vm_id <ℤ (generate_node no_floats two_nodes worker first_master).vm_id)
      two_nodes
generate_node-fresh_in_type_example =
    generate_node-fresh_in_type no_floats two_nodes worker first_master

-- The proposed master has the id of the worker.
generate_node-latest_example :
    (generate_node no_floats two_nodes master first_master).vm_id ≡ first_master.vm_id +ℤ pos 1
generate_node-latest_example =
    generate_node-latest no_floats two_nodes master first_master first_master (inl refl) refl
      ((λ _. omega arith), ((λ e. cc), tt))

create_next_node_definition_numbered_example :
    create_next_node_definition no_floats first_worker (pos 1) ≡ record first_worker {
      vm_id = pos 102;
      name = units "worker-2";
      ip_address = units "10.0.0.256";
    }
unfolding digits ◌+ℤ◌ to_text
create_next_node_definition_numbered_example =
    create_next_node_definition_numbered no_floats first_worker (pos 1) (units "worker")
      (units "10.0.0") 1 255 (omega arith) (omega arith) refl refl
