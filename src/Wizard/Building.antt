-- ===== src/Wizard/Building.antt =====
-- The wizard as a whole, from its first step to its request: web/src-web/src/views/cluster-creator,
-- its forms with what they show, the step of nodes, and the buttons of the navigator and of the
-- confirmation. The form library is taken to report a form as valid where its schema is, and to have
-- done so before the next event; the cluster by default is taken to have been answered before.
pub mod Stored
pub mod Ready
use makoon.Prelude.{
  ℕ, Bool, true, false, not, ◌||◌, ◌&&◌, List, [], ◌∷◌, leb, nat_eq, ◌==◌, if◌then◌else◌,
}
use makoon.Model.{HelmApp, ClusterResource, ClusterNode, ClusterRequest}
use makoon.World.{World, Wizard, ClusterCreatorStore}
use makoon.Creator.{SettingsModel, ClusterSettingsModel, settings, cluster_settings}
use makoon.Wizard.{next_step, click_previous, hide_confirmation, requested, nodes_step_disabled}
use makoon.Wizard.Forms.{next_of_form, submit_settings, submit_cluster}
use makoon.Wizard.Sections.{form_effect, free_effect}
use makoon.Forms.{Yup}
use makoon.Forms.Schemas.{settings_schema, cluster_schema}
use makoon.Forms.Values.{settings_values, cluster_values}

pub record Building : Type 0 where
  pub world : World
  -- what the forms of the first two steps show
  pub first : SettingsModel
  pub second : ClusterSettingsModel
  -- the clusters that the server has been asked to create
  pub sent : List ClusterRequest

abbrev pub index : Building → ℕ
index b = b.world.wizard.active_index

abbrev pub on_wizard : (Wizard → Wizard) → Building → Building
on_wizard f b = record b { world = record b.world { wizard = f b.world.wizard } }

abbrev pub with_nodes : List ClusterNode → ClusterCreatorStore → ClusterCreatorStore
with_nodes nodes s = record s { cluster = record s.cluster { nodes = nodes } }

abbrev pub with_apps :
    List HelmApp → List ClusterResource → ClusterCreatorStore → ClusterCreatorStore
with_apps apps resources s = record s {
  cluster = record s.cluster { helm_apps = apps; cluster_resources = resources };
}

abbrev pub on_store : (ClusterCreatorStore → ClusterCreatorStore) → Building → Building
on_store f b = record b { world = record b.world { creator = f b.world.creator } }

pub data Event : Type 0 where
  -- the user makes the form of a step show other values
  types_first : SettingsModel → Event
  types_second : ClusterSettingsModel → Event
  -- whatever the sections and dialogs of the last three steps make of the store
  edits_nodes : List ClusterNode → Event
  edits_apps : List HelmApp → List ClusterResource → Event
  -- the buttons of the navigator, and those of the confirmation, which is modal
  -- and its close button
  next back no yes hide : Event

abbrev pub confirming : Building → Bool
confirming b = b.world.wizard.show_provisioning_confirmation

abbrev pub answering : Building → Bool
answering b = confirming b && not b.world.wizard.cluster_request_in_progress

module _ (y : Yup) where
  abbrev pub first_valid : Building → Bool
  first_valid b = y.is_valid settings_schema (settings_values b.first)

  abbrev pub second_valid : Building → Bool
  second_valid b = y.is_valid (cluster_schema b.world.clusters_list) (cluster_values b.second)

  -- What the effects of the step that is shown make of the buttons of the navigator.
  abbrev pub effects : Building → Building
  effects b =
      if index b == 0
      then on_wizard (form_effect (first_valid b)) b
      else if index b == 1
      then on_wizard (form_effect (second_valid b)) b
      else if index b == 2
      then on_wizard (λ z. record z { next_disabled = nodes_step_disabled b.world.creator }) b
      else on_wizard free_effect b

  -- A step is shown: its form has the values of the store.
  abbrev pub enter : Building → Building
  enter b =
      effects
        (record b { first = settings b.world.creator; second = cluster_settings b.world.creator })

  module _ (reset_form : World → World) where
    -- `next` of the step that is shown.
    abbrev pub pass : Building → Building
    pass b =
        if index b == 0
        then record b {
          world = next_of_form (first_valid b) (submit_settings reset_form b.first) b.world;
        }
        else if index b == 1
        then record b {
          world = next_of_form (second_valid b) (submit_cluster reset_form b.second) b.world;
        }
        else on_wizard (λ z. next_step z z) b

    abbrev pub handle : Event → Building → Building
    handle (types_first values) b =
        if index b == 0 then effects (record b { first = values }) else b
    handle (types_second values) b =
        if index b == 1 then effects (record b { second = values }) else b
    handle (edits_nodes nodes) b =
        if index b == 2 then effects (on_store (with_nodes nodes) b) else b
    handle (edits_apps apps resources) b =
        if leb 3 (index b) then on_store (with_apps apps resources) b else b
    handle next b = if confirming b || b.world.wizard.next_disabled then b else enter (pass b)
    handle back b = if confirming b then b else enter (on_wizard (λ z. click_previous z z) b)
    handle no b = if answering b then on_wizard hide_confirmation b else b
    handle hide b = if confirming b then on_wizard hide_confirmation b else b
    handle yes b =
        if answering b
        then record (on_wizard requested b) { sent = b.world.creator.cluster ∷ b.sent }
        else b

    abbrev pub handle_all : List Event → Building → Building
    handle_all [] b = b
    handle_all (e ∷ es) b = handle_all es (handle e b)
