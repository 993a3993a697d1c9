-- ===== src/Wizard/Forms.antt =====
-- The steps of web/src-web/src/views/cluster-creator/steps that are left by "Next": the forms of
-- settings/index.tsx and cluster/index.tsx, and the table of nodes/index.tsx.
use makoon.Prelude.{
  ◌≤◌, ◌≡◌, ◌↔◌, ◌≢◌, refl, ap, arith, Bool, true, false, List, [], ◌∷◌, All, length, is_empty,
  Text, nat_eq, if◌then◌else◌,
}
use makoon.Model.{ClusterNode}
use makoon.World.{World, ClusterCreatorStore}
use makoon.Creator.{
  SettingsModel, ClusterSettingsModel, update_settings, update_cluster_settings, settings,
  cluster_settings, master_nodes,
}
use makoon.Wizard.{next_step, not_valid, nodes_step_disabled}

-- `onSubmit` of the two forms, with the form's reset.
abbrev pub submit_settings : (World → World) → SettingsModel → World → World
submit_settings reset_form values w =
    reset_form (record w { creator = update_settings values w.creator })

abbrev pub submit_cluster : (World → World) → ClusterSettingsModel → World → World
submit_cluster reset_form values w =
    reset_form (record w { creator = update_cluster_settings values w.creator })

-- `next` of a step with a form: the form library submits a form only where it is valid, and
-- `onNext` follows in both cases.
unfoldable pub next_of_form : Bool → (World → World) → World → World
next_of_form is_valid submit w =
    let v = if is_valid then submit w else w in record v { wizard = next_step w.wizard v.wizard }

-- What a complete node has.
abbrev pub IsComplete : ClusterNode → Type 0
IsComplete n = (n.storage_pool ≢ []) × (n.ip_address ≢ [])

is_empty_iff : (t : Text) → (is_empty t ≡ false) ↔ (t ≢ [])
is_empty_iff [] = (λ h. absurd (ground arith), λ h. absurd (h refl))
is_empty_iff (c ∷ t) = ((λ _ e. cc), λ _. refl)

not_valid-All : (nodes : List ClusterNode) → (not_valid nodes ≡ false) ↔ All IsComplete nodes
unfolding not_valid
not_valid-All [] = (λ _. tt, λ _. refl)
not_valid-All (n ∷ nodes) = (
  λ h. (
    ((is_empty_iff n.storage_pool).0 (ground arith), (is_empty_iff n.ip_address).0 (ground arith)),
    (not_valid-All nodes).0 (ground arith),
  ),
  λ h. ground (
    arith,
    (is_empty_iff n.storage_pool).1 h.0.0,
    (is_empty_iff n.ip_address).1 h.0.1,
    (not_valid-All nodes).1 h.1,
  ),
)

-- The wizard leaves the step of nodes exactly where the cluster has a master and each of its nodes
-- has a storage pool and an address.
pub nodes_step_disabled-All :
    (s : ClusterCreatorStore)
    → (nodes_step_disabled s ≡ false)
      ↔ ((1 ≤ length (master_nodes s)) × All IsComplete s.cluster.nodes)
unfolding nodes_step_disabled
nodes_step_disabled-All s = (
  λ h. (ground arith, (not_valid-All s.cluster.nodes).0 (ground arith)),
  λ h. let fewer = h.0 in ground (arith, (not_valid-All s.cluster.nodes).1 h.1),
)

-- "Next" on the first form saves its values where they are valid, and nothing where they are not,
-- and goes on to the next step in both cases. The reset of the form is taken to leave the wizard's
-- store and its step alone.
pub next_of_form-submit_settings :
    (reset_form : World → World) (is_valid : Bool) (values : SettingsModel) (w : World)
    → ((v : World) → (reset_form v).creator ≡ v.creator)
    → ((v : World) → (reset_form v).wizard ≡ v.wizard)
    → let v = next_of_form is_valid (submit_settings reset_form values) w in
      (settings v.creator ≡ (if is_valid then values else settings w.creator))
      × (cluster_settings v.creator ≡ cluster_settings w.creator)
      × (v.wizard ≡ next_step w.wizard w.wizard)
unfolding next_of_form settings cluster_settings update_settings
next_of_form-submit_settings reset_form true values w keeps stays =
    let saved : World = record w { creator = update_settings values w.creator } in
    (
      ap settings (keeps saved),
      ap cluster_settings (keeps saved),
      ap (next_step w.wizard) (stays saved),
    )
next_of_form-submit_settings reset_form false values w keeps stays = (refl, refl, refl)
