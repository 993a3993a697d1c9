-- ===== src/Wizard/Views.antt =====
-- `renderStep` of web/src-web/src/views/cluster-creator/index.tsx: which step is shown.
use makoon.Prelude.{
  ℕ, zero, suc, ◌≤◌, ◌≡◌, refl, arith, Option, none, some, get_elem?, Text, units, nat_eq, ◌==◌,
  if◌then◌else◌,
}
use makoon.Wizard.{steps}
use makoon.Wizard.Sessions.{Session, Steps, started, Steps-IsSound}

pub data StepComponent : Type 0 where
  settings_step cluster_step nodes_step apps_step workloads_step : StepComponent

-- `none` is the empty component of the default case.
unfoldable pub render_step : ℕ → Option StepComponent
render_step active_index =
    if active_index == 0
    then some settings_step
    else if active_index == 1
    then some cluster_step
    else if active_index == 2
    then some nodes_step
    else if active_index == 3
    then some apps_step
    else if active_index == 4
    then some workloads_step
    else none

-- The label that the list of steps has for a component.
abbrev pub label : StepComponent → Text
label settings_step = units "Settings"
label cluster_step = units "Cluster"
label nodes_step = units "Nodes"
label apps_step = units "Apps"
label workloads_step = units "Workloads"

-- At every moment of a session the wizard shows a step, and it is the one that the list of steps
-- marks as active.
pub render_step-get_elem? :
    (s : Session)
    → Steps started s
    → (c : StepComponent) × (render_step s.wizard.active_index ≡ some c)
      × (get_elem? steps s.wizard.active_index ≡ some (label c))
unfolding render_step
render_step-get_elem? s h = by_index s.wizard.active_index (Steps-IsSound s h).0
  where
    by_index :
        (i : ℕ)
        → i ≤ 4
        → (c : StepComponent) × (render_step i ≡ some c) × (get_elem? steps i ≡ some (label c))
    by_index zero h = (settings_step, refl, refl)
    by_index (suc zero) h = (cluster_step, refl, refl)
    by_index (suc (suc zero)) h = (nodes_step, refl, refl)
    by_index (suc (suc (suc zero))) h = (apps_step, refl, refl)
    by_index (suc (suc (suc (suc zero)))) h = (workloads_step, refl, refl)
    by_index (suc (suc (suc (suc (suc n))))) h = absurd (omega arith)
