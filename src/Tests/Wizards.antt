-- ===== src/Tests/Wizards.antt =====
-- The wizard's cluster, the wizard's sessions and polling components.
use makoon.Prelude.{◌≡◌, ◌++◌, refl, true, false, int_eq}
use mathlib.Core.List.{Perm}
use makoon.Model.{ClusterNode}
use makoon.World.{Wizard, ClusterCreatorStore, type_error}
use makoon.Creator.{master_nodes, worker_nodes}
use makoon.Creator.Members.{master_nodes-worker_nodes-perm}
use makoon.Wizard.{opened, click_next, next_step, requested, hide_confirmation}
use makoon.Wizard.Sessions.{
  Session, Steps, none_left, then_one, next, yes, refused, close, started, IsSound, Steps-IsSound,
  Steps-refused,
}
use makoon.Hooks.{Poller, mounted_poller, tick}
use makoon.Hooks.Polls.{stay, and_step, ticked, IsPolling, Steps-IsPolling, Steps-after_await}
use makoon.Tests.Data.{first_worker, page, two_nodes}

abbrev shop : ClusterCreatorStore
shop = page.creator

abbrev bigger : ClusterNode
bigger = record first_worker { cores = 8 }

master_nodes-worker_nodes-perm_example : Perm (master_nodes shop ++ worker_nodes shop) two_nodes
master_nodes-worker_nodes-perm_example = master_nodes-worker_nodes-perm shop

Steps-IsSound_example : IsSound (record started { wizard = click_next opened opened })
Steps-IsSound_example =
    Steps-IsSound (record started { wizard = click_next opened opened }) (then_one none_left next)

-- "Next" until the confirmation, "Yes", and then a refusal.
abbrev last_step : Wizard
last_step = record opened { active_index = 4; show_provisioning_confirmation = true }

abbrev asking : Session
asking = record { wizard = requested last_step; pending = 1; created = 0 }

abbrev refused_session : Session
refused_session = record asking { pending = 0 }

asking_run : Steps started asking
unfolding click_next next_step
asking_run =
    then_one
      (then_one (then_one (then_one (then_one (then_one none_left next) next) next) next) next)
      (yes refl refl)

abbrev closed_session : Session
closed_session = record refused_session { wizard = hide_confirmation (requested last_step) }

Steps-refused_example :
    (closed_session.wizard.cluster_request_in_progress ≡ true)
    × (closed_session.pending ≡ 0)
    × (closed_session.created ≡ refused_session.created)
    × (closed_session.wizard.hidden ≡ refused_session.wizard.hidden)
Steps-refused_example =
    Steps-refused asking_run (refused refl) refl refl (then_one none_left (close refl))

abbrev ticked_once : Poller
ticked_once = tick mounted_poller

Steps-IsPolling_example : IsPolling (tick (tick mounted_poller))
unfolding tick
Steps-IsPolling_example = Steps-IsPolling (and_step (and_step stay (ticked refl)) (ticked refl))

abbrev dead : Poller
dead = record { nodes_status_request_finish = false; mounted = true; in_flight = 0; calls = 1 }

Steps-after_await_example : ((tick dead).calls ≡ 1) × ((tick dead).in_flight ≡ 0)
unfolding tick
Steps-after_await_example =
    Steps-after_await type_error (and_step stay (ticked refl)) refl (and_step stay (ticked refl))
