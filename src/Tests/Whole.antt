-- ===== src/Tests/Whole.antt =====
-- The wizard from its first step to its request, added nodes, and methods at once.
use makoon.Prelude.{◌≡◌, refl, arith, ℕ, int_eq, text_eq, List, [], ◌∷◌, All, length, map, units}
use makoon.Prelude.Int.{pos, ◌+ℤ◌, ◌-ℤ◌}
use makoon.Js.Text.{trim}
use makoon.Js.Regex.{any_then}
use makoon.Js.Array.{find, sort, filter}
use makoon.Nodes.{generate_node, create_next_node_definition}
use makoon.Forms.Schemas.{is_name_available}
use makoon.Wizard.{next_step, nodes_step_disabled}
use makoon.Wizard.Forms.{next_of_form}
use makoon.Model.{ClusterNode, master, worker}
use makoon.World.{ClusterCreatorStore}
use makoon.Async.{end}
use makoon.Async.Pool.{System, idle, start, deliver}
use makoon.Async.Pool.Keeps.{here, called, answered}
use makoon.Async.Pool.Keeps.About.{IsAbout, elsewhere}
use makoon.Async.Pool.Keeps.OneCluster.{adds_app, deletes_app, StandsAt, methods-IsAbout}
use makoon.Management.Actions.{cluster_name_of}
use makoon.Management.Apps.{add_helm_chart, delete_helm_chart}
use makoon.Creator.{add_node, nodes_of_type, update_settings, update_cluster_settings}
use makoon.Creator.Distinct.{IsDistinct}
use makoon.Creator.Adding.{add_all, add_all-IsDistinct}
use makoon.Wizard.Building.{
  Building, Event, types_first, types_second, next, yes, handle_all, enter,
}
use makoon.Wizard.Building.Ready.{IsReady, handle_all-IsReady}
use makoon.Tests.Checked.{checker, checker-IsDocumented}
use makoon.Tests.Saved.{chosen, described}
use makoon.Tests.Data.{agreeing, an_app, first_master, no_floats, page}

abbrev opened_wizard : Building
opened_wizard = record { world = page; first = chosen; second = described; sent = [] }

-- Both forms are filled in, and "Next" and "Yes" are pressed until the request.
abbrev filling : List Event
filling = types_first chosen ∷ next ∷ types_second described ∷ next ∷ next ∷ next ∷ next ∷ yes ∷ []

handle_all-IsReady_example :
    All
      (IsReady page.clusters_list)
      (handle_all checker (λ w. w) filling (enter checker opened_wizard)).sent
handle_all-IsReady_example =
    handle_all-IsReady checker checker-IsDocumented (λ w. w) (λ w. refl) (λ w. refl) (λ w. refl)
      opened_wizard refl refl refl filling

one_sent : length (handle_all checker (λ w. w) filling (enter checker opened_wizard)).sent ≡ 1
unfolding trim next_of_form next_step any_then is_name_available find nodes_step_disabled
    nodes_of_type sort filter update_cluster_settings update_settings
one_sent = refl

abbrev one_master : ClusterCreatorStore
one_master = record page.creator {
  cluster = record page.creator.cluster { nodes = first_master ∷ [] };
}

add_all-IsDistinct_example :
    IsDistinct
      (add_all no_floats first_master
        (worker ∷ master ∷ worker ∷ master ∷ [])
        one_master).cluster.nodes
add_all-IsDistinct_example =
    add_all-IsDistinct no_floats first_master first_master (worker ∷ master ∷ worker ∷ master ∷ [])
      one_master refl refl (omega arith)

-- The sixth master gets the id of the first worker.
sixth_master :
    map
      (λ (e : ClusterNode). e.vm_id)
      (add_all no_floats first_master
        (worker ∷ master ∷ master ∷ master ∷ master ∷ master ∷ [])
        one_master).cluster.nodes
    ≡ pos 100 ∷ pos 105 ∷ pos 101 ∷ pos 102 ∷ pos 103 ∷ pos 104 ∷ pos 105 ∷ []
unfolding add_node generate_node find sort create_next_node_definition ◌+ℤ◌ ◌-ℤ◌
sixth_master = refl

abbrev both_called : System ℕ
both_called =
    start (delete_helm_chart (units "a1") (λ _. end))
      (start (add_helm_chart (units "k") an_app (λ _. end)) (idle page 0))

methods-IsAbout_example :
    (cluster_name_of (deliver agreeing 1 both_called).world ≡ units "lab")
    × (elsewhere (deliver agreeing 1 both_called).world ≡ elsewhere page)
    × All (StandsAt (IsAbout (units "lab"))) (deliver agreeing 1 both_called).waiting
methods-IsAbout_example = methods-IsAbout agreeing page 0 (deliver agreeing 1 both_called) (
    answered 1
      (called (called here (adds_app (units "k") an_app refl)) (deletes_app (units "a1") refl)))
