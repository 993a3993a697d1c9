-- ===== src/Tests/Choices.antt =====
-- Answers for the choices of the forms.
use makoon.Prelude.{ℕ, ◌≡◌, refl, arith, some, List, [], ◌∷◌, none, Text, units}
use makoon.Model.{AvailableNetwork, AvailableStorage, AvailableOsImage, AvailableKubeVersion}
use makoon.Api.{nodes, bridges, storage, os_images, kube_versions}
use makoon.World.{World}
use makoon.Async.{resolved, end}
use makoon.Async.Run.{Server}
use makoon.Async.Pool.{System, idle, start, deliver}
use makoon.Loads.{load_networks, choose, mount_step}
use makoon.Loads.Orders.{deliver_all}
use makoon.Loads.Late.{enter_settings, load_networks_race, load_settings_any_order}
use makoon.Tests.Data.{page, refusal}

abbrev bridge_of : Text → List AvailableNetwork
bridge_of node = record { iface = node; address = none } ∷ []

abbrev known_storages : List AvailableStorage
known_storages = record { storage = units "local"; avail = none; used = none; total = none } ∷ []

abbrev known_images : List AvailableOsImage
known_images = record { name = units "jammy"; url = units "https://images/jammy" } ∷ []

abbrev known_versions : List AvailableKubeVersion
known_versions = record { version = units "1.27" } ∷ []

abbrev offering : Server ℕ
offering nodes n = (resolved (units "pve" ∷ []), n)
offering (bridges node) n = (resolved (bridge_of node), n)
offering (storage node content) n = (resolved known_storages, n)
offering os_images n = (resolved known_images, n)
offering kube_versions n = (resolved known_versions, n)
offering _ n = (refusal, n)

abbrev one_load : System ℕ
one_load = start (load_networks 0 (units "a") (units "k1") (λ _. end)) (idle page 0)

abbrev stayed : System ℕ
stayed = deliver offering 1 (start (load_networks 0 (units "b") (units "k2") (λ _. end)) one_load)

-- The step of the cluster has been left and is mounted again.
abbrev moved : System ℕ
moved = deliver offering 1 (
    start (load_networks 1 (units "b") (units "k2") (λ _. end))
      (record one_load { world = choose mount_step one_load.world }))

load_networks_race_example :
    (stayed.world.choices.networks ≡ bridge_of (units "b"))
    × ((deliver offering 0 stayed).world.choices.networks ≡ bridge_of (units "a"))
    × ((deliver offering 0 stayed).waiting ≡ [])
    × (moved.world.choices.networks ≡ bridge_of (units "b"))
    × ((deliver offering 0 moved).world.choices.networks ≡ bridge_of (units "b"))
    × ((deliver offering 0 moved).waiting ≡ [])
load_networks_race_example =
    load_networks_race offering (units "a") (units "b") (units "k1") (units "k2")
      (bridge_of (units "a")) (bridge_of (units "b")) page 0 0 0 refl refl refl refl

abbrev on_pve : World
on_pve = record page {
  creator = record page.creator { cluster = record page.creator.cluster { node = units "pve" } };
}

abbrev last_first : System ℕ
last_first =
    deliver_all offering (3 ∷ 1 ∷ 1 ∷ 0 ∷ [])
      (enter_settings (units "k0") (units "k1") (units "k2") (units "k3") on_pve 0)

load_settings_any_order_example :
    (last_first.waiting ≡ [])
    × (last_first.world.choices.nodes ≡ units "pve" ∷ [])
    × (last_first.world.choices.os_image_storages ≡ known_storages)
    × (last_first.world.choices.os_images ≡ some known_images)
    × (last_first.world.choices.kube_versions ≡ some known_versions)
load_settings_any_order_example =
    load_settings_any_order offering (units "k0") (units "k1") (units "k2") (units "k3")
      (units "pve" ∷ []) known_storages known_images known_versions (3 ∷ 1 ∷ 1 ∷ 0 ∷ []) on_pve 0
      (omega arith, (omega arith, (omega arith, (omega arith, tt)))) refl (λ _. refl) (λ _. refl)
      (λ _. refl) (λ _. refl)
