-- ===== src/Wizard/Building/Stored.antt =====
-- What the steps that have been passed leave in the wizard's store.
use makoon.Prelude.{
  none, ◌+◌, ◌≤◌, ◌≡◌, arith, true, false, List, [], ◌∷◌, All, nat_eq, ◌==◌, Bool-cases, inl, inr,
  ==_iff,
}
use makoon.Model.{HelmApp, ClusterResource, ClusterNode, ClusterRequest}
use makoon.World.{Wizard, ClusterCreatorStore, ClustersListStore}
use makoon.Creator.{settings, cluster_settings, nodes_of_type}
use makoon.Wizard.{
  hide_confirmation, requested, next_step, click_previous, previous_step, nodes_step_disabled,
  not_valid,
}
use makoon.Wizard.Building.{
  Building, index, effects, enter, first_valid, second_valid, confirming, on_store, on_wizard,
  with_nodes, with_apps,
}
use makoon.Forms.{Yup}
use makoon.Forms.Schemas.{settings_schema, cluster_schema}
use makoon.Forms.Values.{settings_values, cluster_values}

-- A store that holds a cluster.
abbrev pub store_of : ClusterRequest → ClusterCreatorStore
store_of c = record { cluster = c; default_master_node = none }

module _ (y : Yup) (clusters : ClustersListStore) where
  abbrev pub FirstOk : ClusterCreatorStore → Type 0
  FirstOk s = y.is_valid settings_schema (settings_values (settings s)) ≡ true

  abbrev pub SecondOk : ClusterCreatorStore → Type 0
  SecondOk s = y.is_valid (cluster_schema clusters) (cluster_values (cluster_settings s)) ≡ true

  abbrev pub AllOk : ClusterCreatorStore → Type 0
  AllOk s = FirstOk s × SecondOk s × (nodes_step_disabled s ≡ false)

  -- What the steps that have been passed leave in the store.
  abbrev pub Stored : Building → Type 0
  Stored b =
      (b.world.clusters_list ≡ clusters)
      × (1 ≤ index b → FirstOk b.world.creator)
      × (2 ≤ index b → SecondOk b.world.creator)
      × (3 ≤ index b → nodes_step_disabled b.world.creator ≡ false)
      × (confirming b ≡ true → 3 ≤ index b)
      × All (λ c. AllOk (store_of c)) b.sent

  -- Where "Next" is enabled, the step that is shown may be passed.
  abbrev pub Shown : Building → Type 0
  Shown b =
      b.world.wizard.next_disabled ≡ false
      → (index b ≡ 0 → first_valid y b ≡ true)
        × (index b ≡ 1 → second_valid y b ≡ true)
        × (index b ≡ 2 → nodes_step_disabled b.world.creator ≡ false)

  pub effects-Shown : (b : Building) → Shown (effects y b)
  effects-Shown b = ground arith

  pub effects-Stored : (b : Building) → Stored b → Stored (effects y b)
  effects-Stored b h = elim (Bool-cases (index b == 0)) [
    | inl e ↦ rw e h
    | inr e ↦ elim (Bool-cases (index b == 1)) [
      | inl e1 ↦ rw (e, e1) h
      | inr e1 ↦ elim (Bool-cases (index b == 2)) [
        | inl e2 ↦ rw (e, e1, e2) h
        | inr e2 ↦ rw (e, e1, e2) h
      ]
    ]
  ]

  pub enter-Stored : (b : Building) → Stored b → Stored (enter y b)
  enter-Stored b h =
      effects-Stored
        (record b { first = settings b.world.creator; second = cluster_settings b.world.creator }) h

  pub nodes-Stored :
      (b : Building) (nodes : List ClusterNode)
      → index b ≡ 2
      → Stored b
      → Stored (on_store (with_nodes nodes) b)
  unfolding settings cluster_settings
  nodes-Stored b nodes e (l, f1, f2, f3, c, a) = (l, f1, f2, (λ k. absurd (omega arith)), c, a)

  pub apps-Stored :
      (b : Building) (apps : List HelmApp) (resources : List ClusterResource)
      → Stored b
      → Stored (on_store (with_apps apps resources) b)
  unfolding settings cluster_settings nodes_step_disabled not_valid nodes_of_type
  apps-Stored b apps resources h = h

  -- A step from one of the two forms to the next step.
  pub left_first-Stored :
      (b : Building)
      → b.world.clusters_list ≡ clusters
      → index b ≡ 1
      → FirstOk b.world.creator
      → confirming b ≡ false
      → All (λ c. AllOk (store_of c)) b.sent
      → Stored b
  left_first-Stored b l i f c a = (
    l,
    (λ _. f),
    (λ k. absurd (omega arith)),
    (λ k. absurd (omega arith)),
    (λ k. ground arith),
    a,
  )

  pub left_second-Stored :
      (b : Building)
      → b.world.clusters_list ≡ clusters
      → index b ≡ 2
      → FirstOk b.world.creator
      → SecondOk b.world.creator
      → confirming b ≡ false
      → All (λ c. AllOk (store_of c)) b.sent
      → Stored b
  left_second-Stored b l i f g c a =
      (l, (λ _. f), (λ _. g), (λ k. absurd (omega arith)), (λ k. ground arith), a)

  pub first_step_lem :
      (z : Wizard)
      → z.active_index ≡ 0
      → ((next_step z z).active_index ≡ 1)
        × ((next_step z z).show_provisioning_confirmation ≡ z.show_provisioning_confirmation)
  unfolding next_step
  first_step_lem z e = ground arith

  pub second_step_lem :
      (z : Wizard)
      → z.active_index ≡ 1
      → ((next_step z z).active_index ≡ 2)
        × ((next_step z z).show_provisioning_confirmation ≡ z.show_provisioning_confirmation)
  unfolding next_step
  second_step_lem z e = ground arith

  pub later_step_lem :
      (z : Wizard)
      → 2 ≤ z.active_index
      → (z.active_index ≤ (next_step z z).active_index)
        × ((next_step z z).active_index ≤ z.active_index + 1)
        × ((next_step z z).show_provisioning_confirmation ≡ true
            → z.show_provisioning_confirmation ≡ false
            → 3 ≤ (next_step z z).active_index)
  unfolding next_step
  later_step_lem z e = ground arith

  pub pass_rest-Stored :
      (b : Building)
      → 2 ≤ index b
      → (index b ≡ 2 → nodes_step_disabled b.world.creator ≡ false)
      → confirming b ≡ false
      → Stored b
      → Stored (on_wizard (λ z. next_step z z) b)
  pass_rest-Stored b e at2 closed (l, f1, f2, f3, c, a) =
      let (up, down, shown) = later_step_lem b.world.wizard e in
      (
        l,
        (λ k. f1 (omega arith)),
        (λ k. f2 (omega arith)),
        (λ k. elim (Bool-cases (index b == 2)) [
          | inl i ↦ at2 ((==_iff (index b) 2).0 i)
          | inr i ↦ f3 (ground arith)
        ]),
        (λ k. shown k closed),
        a,
      )

  pub back_lem :
      (z : Wizard)
      → ((click_previous z z).active_index ≤ z.active_index)
        × ((click_previous z z).show_provisioning_confirmation ≡ z.show_provisioning_confirmation)
  unfolding click_previous previous_step
  back_lem z = ground arith

  pub back-Stored :
      (b : Building)
      → confirming b ≡ false
      → Stored b
      → Stored (on_wizard (λ z. click_previous z z) b)
  back-Stored b closed (l, f1, f2, f3, c, a) =
      let (down, same) = back_lem b.world.wizard in
      (
        l,
        (λ k. f1 (omega arith)),
        (λ k. f2 (omega arith)),
        (λ k. f3 (omega arith)),
        (λ k. ground arith),
        a,
      )

  pub yes-Stored :
      (b : Building)
      → confirming b ≡ true
      → Stored b
      → Stored (record (on_wizard requested b) { sent = b.world.creator.cluster ∷ b.sent })
  unfolding settings cluster_settings nodes_step_disabled not_valid nodes_of_type
  yes-Stored b shown (l, f1, f2, f3, c, a) =
      let last = c shown in (l, f1, f2, f3, c, ((f1 (omega arith), f2 (omega arith), f3 last), a))

  pub hide-Stored : (b : Building) → Stored b → Stored (on_wizard hide_confirmation b)
  hide-Stored b (l, f1, f2, f3, c, a) = (l, f1, f2, f3, (λ k. absurd (ground arith)), a)

  pub first-Stored :
      (b : Building)
      → b.world.clusters_list ≡ clusters
      → index b ≡ 0
      → confirming b ≡ false
      → b.sent ≡ []
      → Stored b
  first-Stored b l i c e = (
    l,
    (λ k. absurd (omega arith)),
    (λ k. absurd (omega arith)),
    (λ k. absurd (omega arith)),
    (λ k. absurd (ground arith)),
    rw e tt,
  )
