-- ===== src/Wizard.antt =====
-- web/src-web/src/views/cluster-creator/index.tsx, CreatorNavigator.tsx and the steps under steps/:
-- the wizard's component state and what its buttons do. A handler reads the state its component was
-- last rendered with, `shown`, while `setActiveIndex(i => i + 1)` changes the current one.
pub mod Sessions
pub mod Provisioning
pub mod Dialogs
pub mod Views
pub mod Forms
pub mod Initials
pub mod Sections
pub mod Tables
pub mod Building
use makoon.Prelude.{
  ℕ, ◌+◌, ◌-◌, Bool, true, false, not, ◌||◌, Option, List, [], ◌∷◌, length, is_empty, ltb, units,
  Text, nat_eq, ◌==◌, if◌then◌else◌,
}
use makoon.Model.{ClusterNode}
use makoon.World.{World, Wizard, ClusterCreatorStore}
use makoon.Async.{Async, modify, gets, detach, ◌>>=◌, ◌>>◌}
use makoon.Creator.{master_nodes}
use makoon.Creator.Generate.{provision_cluster}

abbrev pub steps : List Text
steps = units "Settings" ∷ units "Cluster" ∷ units "Nodes" ∷ units "Apps" ∷ units "Workloads" ∷ []

-- The state of a wizard that has just been opened.
abbrev pub opened : Wizard
opened = record {
  active_index = 0;
  show_provisioning_confirmation = false;
  cluster_request_in_progress = false;
  next_disabled = false;
  previous_disabled = false;
  hidden = false;
}

unfoldable pub next_step : Wizard → Wizard → Wizard
next_step shown w =
    if shown.active_index == 4
    then record w { show_provisioning_confirmation = true }
    else if ltb shown.active_index (length steps - 1)
    then record w { active_index = w.active_index + 1 }
    else w

-- `i - 1` is taken where the rendered index is above 0.
unfoldable pub previous_step : Wizard → Wizard → Wizard
previous_step shown w =
    if ltb 0 shown.active_index then record w { active_index = w.active_index - 1 } else w

-- The button "Next" of CreatorNavigator.tsx, for a step whose `next` is `props.onNext()`.
unfoldable pub click_next : Wizard → Wizard → Wizard
unfolding next_step
click_next shown w = if not shown.next_disabled then next_step shown w else w

-- The button "Back", which the first step does not show.
unfoldable pub click_previous : Wizard → Wizard → Wizard
unfolding previous_step
click_previous shown w =
    if shown.active_index == 0
    then w
    else if not shown.previous_disabled
    then previous_step shown w
    else w

abbrev pub hide_confirmation : Wizard → Wizard
hide_confirmation w = record w { show_provisioning_confirmation = false }

abbrev pub requested : Wizard → Wizard
requested w = record w { cluster_request_in_progress = true }

abbrev pub provisioned : Wizard → Wizard
provisioned w = record w {
  cluster_request_in_progress = false;
  show_provisioning_confirmation = false;
  hidden = true;
}

abbrev on_wizard : (Wizard → Wizard) → World → World
on_wizard f w = record w { wizard = f w.wizard }

-- The promise has a `then` and no `catch`, and nothing awaits it.
unfoldable pub start_cluster_provisioning : Text → Async (Unit {0})
unfolding provision_cluster
start_cluster_provisioning key = do
  modify (on_wizard requested)
  cluster ← gets (λ w. w.creator.cluster)
  detach (do provision_cluster key cluster; modify (on_wizard provisioned))

-- The loop of steps/nodes/index.tsx, which stops at the first node that lacks a field.
unfoldable pub not_valid : List ClusterNode → Bool
not_valid [] = false
not_valid (node ∷ nodes) =
    let rest = not_valid nodes in
    if is_empty node.storage_pool || is_empty node.ip_address then true else rest

-- What steps/nodes/index.tsx gives to `nextDisabled`.
unfoldable pub nodes_step_disabled : ClusterCreatorStore → Bool
unfolding not_valid
nodes_step_disabled s = if length (master_nodes s) == 0 then true else not_valid s.cluster.nodes
