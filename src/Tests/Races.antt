-- ===== src/Tests/Races.antt =====
-- Two methods at once, and the patterns of names.
use makoon.Prelude.{ℕ, ◌≡◌, refl, true, false, ◌&&◌, none, some, [], ◌∷◌, is_empty, Text, units}
use makoon.Model.{Cluster, change_resources}
use makoon.World.{World}
use makoon.World.Loaders.{status}
use makoon.Js.Regex.{test}
use makoon.Async.{end}
use makoon.Async.Pool.{System, idle, start, deliver}
use makoon.Async.Pool.Races.{load_project_race, update_nodes_race}
use makoon.Management.Actions.{
  loading_cluster, load_project, set_nodes, update_nodes_if_there_is_any_lock,
}
use makoon.Management.Polling.{on_management}
use makoon.Patterns.{hostname_main, hostname_start, hostname_end}
use makoon.Patterns.Names.{is_name, patterns-is_name}
use makoon.Tests.Data.{locked_worker, two_nodes, a_cluster, page, naming}

abbrev named : Text → Cluster
named name = record a_cluster { cluster_name = name }

-- The clusters "a" and "b" are opened, and the answer for "b" comes first.
abbrev both : System ℕ
both =
    start (load_project (units "b") (λ _. end))
      (start (load_project (units "a") (λ _. end)) (idle page 0))

load_project_race_example :
    ((deliver naming 1 both).world.management.cluster ≡ named (units "b"))
    × (is_empty (deliver naming 1 both).waiting ≡ false)
    × (status loading_cluster (deliver naming 1 both).world.indicator ≡ none)
    × ((deliver naming 0 (deliver naming 1 both)).world.management.cluster ≡ named (units "a"))
    × ((deliver naming 0 (deliver naming 1 both)).waiting ≡ [])
load_project_race_example =
    load_project_race naming (units "a") (units "b") (named (units "a")) (named (units "b")) page 0
      1 2 refl refl

abbrev locked_first : World
locked_first = on_management (set_nodes (locked_worker ∷ [])) page

abbrev polled_and_opened : System ℕ
polled_and_opened =
    start (load_project (units "b") (λ _. end))
      (start (update_nodes_if_there_is_any_lock (units "k") (λ _. end)) (idle locked_first 0))

update_nodes_race_example :
    ((deliver naming 0 (deliver naming 1 polled_and_opened)).world.management.cluster
      ≡ record (named (units "b")) { nodes = some two_nodes })
    × ((deliver naming 0 (deliver naming 1 polled_and_opened)).waiting ≡ [])
update_nodes_race_example =
    update_nodes_race naming (units "k") (units "b") change_resources locked_worker [] two_nodes
      (named (units "b")) locked_first 0 1 2 refl refl refl refl refl

patterns-is_name_example :
    (test hostname_main (units "k8s|lab-1")
      && test hostname_start (units "k8s|lab-1")
      && test hostname_end (units "k8s|lab-1"))
    ≡ true
patterns-is_name_example = patterns-is_name (units "k8s|lab-1")

patterns_tests :
    (is_name (units "lab-") ≡ false)
    × (is_name (units "-lab") ≡ false)
    × (is_name [] ≡ false)
    × (is_name (units "a b") ≡ false)
patterns_tests = (refl, refl, refl, refl)
