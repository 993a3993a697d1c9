-- ===== src/Loads/Late.antt =====
-- Answers for a choice in any order, in web/src-web/src/views/cluster-creator/steps.
use makoon.Prelude.{
  ℕ, ◌+◌, ◌≡◌, refl, arith, false, some, List, [], ◌∷◌, Text, Any, inl, inr, nat_eq, ==_refl,
  ==_false, ◌≢◌,
}
use makoon.Model.{AvailableStorage, AvailableNetwork, AvailableOsImage, AvailableKubeVersion}
use makoon.Api.{nodes, bridges, storage, iso, os_images, kube_versions}
use makoon.World.{World, Choices}
use makoon.Async.{resolved, end}
use makoon.Async.Call.{api_call, wrap_with_processing_indicator, stop}
use makoon.Async.Run.{Server}
use makoon.Async.Pool.{System, idle, start, deliver, advance}
use makoon.Management.Actions.{is_blank}
use makoon.Loads.{
  load_networks, load_nodes, load_settings, wizard_node, choose, choose_in, of_step, mount_step,
}
use makoon.Loads.Orders.{IsOrder, deliver_all, deliver_all-Offered}

-- What the first step asks for.
data SettingsList : Type 0 where
  of_nodes of_storages of_images of_versions : SettingsList

abbrev settings_lists : List SettingsList
settings_lists = of_nodes ∷ of_storages ∷ of_images ∷ of_versions ∷ []

all_lists : (d : SettingsList) → Any (λ e. e ≡ d) settings_lists
all_lists of_nodes = inl refl
all_lists of_storages = inr (inl refl)
all_lists of_images = inr (inr (inl refl))
all_lists of_versions = inr (inr (inr (inl refl)))

-- The first step is mounted and runs its effects: the call for the nodes, then those of `autorun`.
abbrev pub enter_settings : {S : Type 0} → Text → Text → Text → Text → World → S → System S
enter_settings key k k' k'' w s =
    let n = w.choices.step_instance + 1 in
    start (load_settings n k k' k'' (λ _. end))
      (start (load_nodes n key (λ _. end)) (idle (choose mount_step w) s))

module _ (key k k' k'' : Text) (known : List Text) (stored : List AvailableStorage)
    (found : List AvailableOsImage) (versions : List AvailableKubeVersion) (n : ℕ) where
  abbrev key_of : SettingsList → Text
  key_of of_nodes = key
  key_of of_storages = k
  key_of of_images = k'
  key_of of_versions = k''

  abbrev write : SettingsList → Choices → Choices
  write of_nodes c = record c { nodes = known }
  write of_storages c = record c { os_image_storages = stored }
  write of_images c = record c { os_images = some found }
  write of_versions c = record c { kube_versions = some versions }

  -- What the answer for a list does.
  abbrev answer_of : SettingsList → World → World
  answer_of d w = choose_in of_step n (write d) (stop (key_of d) w)

  abbrev IsMounted : World → Type 0
  IsMounted w = w.choices.step_instance ≡ n

  abbrev Offered : SettingsList → World → Type 0
  Offered of_nodes w = w.choices.nodes ≡ known
  Offered of_storages w = w.choices.os_image_storages ≡ stored
  Offered of_images w = w.choices.os_images ≡ some found
  Offered of_versions w = w.choices.kube_versions ≡ some versions

  answer-IsMounted : (d : SettingsList) (w : World) → IsMounted w → IsMounted (answer_of d w)
  answer-IsMounted d w p = ground arith

  answer-sets : (d : SettingsList) (w : World) → IsMounted w → Offered d (answer_of d w)
  answer-sets d w p = ground (arith, ==_refl n)

  answer-keeps :
      (c d : SettingsList) (w : World) → IsMounted w → Offered d w → Offered d (answer_of c w)
  answer-keeps c d w p h = ground arith

ne : (n : ℕ) → n + 1 ≢ n
ne n h = omega arith

module _ {S : Type 0} (serve : Server S) where
  -- The first step of the wizard is mounted with a node chosen, and a server answers each of its four
  -- requests, that for the nodes on the mount and the three of the function given to `autorun`. In
  -- whatever order the answers come, in the end the step offers the four lists of the server, and nothing
  -- is waited for. Nothing else is waited for at first, and the step stays mounted.
  pub load_settings_any_order :
      (key k k' k'' : Text) (known : List Text) (stored : List AvailableStorage)
      (found : List AvailableOsImage) (versions : List AvailableKubeVersion) (order : List ℕ)
      (w : World) (s : S)
      → IsOrder 4 order
      → is_blank (wizard_node w) ≡ false
      → ((r : S) → (serve nodes r).0 ≡ resolved known)
      → ((r : S) → (serve (storage (wizard_node w) iso) r).0 ≡ resolved stored)
      → ((r : S) → (serve os_images r).0 ≡ resolved found)
      → ((r : S) → (serve kube_versions r).0 ≡ resolved versions)
      → let y = deliver_all serve order (enter_settings key k k' k'' w s) in
        (y.waiting ≡ [])
        × (y.world.choices.nodes ≡ known)
        × (y.world.choices.os_image_storages ≡ stored)
        × (y.world.choices.os_images ≡ some found)
        × (y.world.choices.kube_versions ≡ some versions)
  unfolding load_nodes load_settings advance api_call wrap_with_processing_indicator
  load_settings_any_order key k k' k'' known stored found versions order w s o named a b c d =
      let n = w.choices.step_instance + 1 in
      let x = enter_settings key k k' k'' w s in
      let (rest, offered) =
        deliver_all-Offered serve (answer_of key k k' k'' known stored found versions n)
          (IsMounted key k k' k'' known stored found versions n)
          (Offered key k k' k'' known stored found versions n)
          (answer-IsMounted key k k' k'' known stored found versions n)
          (answer-sets key k k' k'' known stored found versions n)
          (answer-keeps key k k' k'' known stored found versions n) order settings_lists x
          (rw (advance, named) refl)
          (rw (advance, named)
            (
              (λ v r. rw (a r) refl),
              ((λ v r. rw (b r) refl), ((λ v r. rw (c r) refl), ((λ v r. rw (d r) refl), tt))),
            ))
          (λ e. inr (all_lists e)) o in
      (rest, offered of_nodes, offered of_storages, offered of_images, offered of_versions)

  -- Two calls for the networks by one step that stays mounted.
  networks_stayed :
      (a b key key' : Text) (first second : List AvailableNetwork) (w : World) (s s' s'' : S)
      → is_blank a ≡ false
      → is_blank b ≡ false
      → serve (bridges b) s ≡ (resolved second, s')
      → serve (bridges a) s' ≡ (resolved first, s'')
      → let n = w.choices.step_instance in
        let x = start (load_networks n a key (λ _. end)) (idle w s) in
        let stayed = deliver serve 1 (start (load_networks n b key' (λ _. end)) x) in
        let late = deliver serve 0 stayed in
        (stayed.world.choices.networks ≡ second)
        × (late.world.choices.networks ≡ first)
        × (late.waiting ≡ [])
  unfolding load_networks advance api_call wrap_with_processing_indicator
  networks_stayed a b key key' first second w s s' s'' h k e f =
      let n = w.choices.step_instance in
      rw (advance, h, k)
        (rw (advance, e) (rw (advance, f) (rw (==_refl n) (rw (==_refl n) (refl, refl, refl)))))

  -- A call by a step, and one by the step that is mounted after it.
  networks_moved :
      (a b key key' : Text) (first second : List AvailableNetwork) (w : World) (s s' s'' : S)
      → is_blank a ≡ false
      → is_blank b ≡ false
      → serve (bridges b) s ≡ (resolved second, s')
      → serve (bridges a) s' ≡ (resolved first, s'')
      → let n = w.choices.step_instance in
        let x = start (load_networks n a key (λ _. end)) (idle w s) in
        let again = record x { world = choose mount_step x.world } in
        let moved = deliver serve 1 (start (load_networks (n + 1) b key' (λ _. end)) again) in
        let late' = deliver serve 0 moved in
        (moved.world.choices.networks ≡ second)
        × (late'.world.choices.networks ≡ second)
        × (late'.waiting ≡ [])
  unfolding load_networks advance api_call wrap_with_processing_indicator
  networks_moved a b key key' first second w s s' s'' h k e f =
      let n = w.choices.step_instance in
      rw (advance, h)
        (rw (advance, k)
          (rw (advance, e)
            (rw (advance, f)
              (rw (==_refl (n + 1)) (rw (==_false (n + 1) n (ne n)) (refl, refl, refl))))))

  -- The node of the wizard is changed from `a` to `b` before the networks of `a` have been answered, and
  -- that answer comes last. Where the step of the cluster has stayed mounted, as when the node is changed
  -- by the answer with the default cluster, its form then offers the networks of `a`. Where another step
  -- has been mounted in between, the late answer changes nothing.
  pub load_networks_race :
      (a b key key' : Text) (first second : List AvailableNetwork) (w : World) (s s' s'' : S)
      → is_blank a ≡ false
      → is_blank b ≡ false
      → serve (bridges b) s ≡ (resolved second, s')
      → serve (bridges a) s' ≡ (resolved first, s'')
      → let n = w.choices.step_instance in
        let x = start (load_networks n a key (λ _. end)) (idle w s) in
        let stayed = deliver serve 1 (start (load_networks n b key' (λ _. end)) x) in
        let late = deliver serve 0 stayed in
        let again = record x { world = choose mount_step x.world } in
        let moved = deliver serve 1 (start (load_networks (n + 1) b key' (λ _. end)) again) in
        let late' = deliver serve 0 moved in
        (stayed.world.choices.networks ≡ second)
        × (late.world.choices.networks ≡ first)
        × (late.waiting ≡ [])
        × (moved.world.choices.networks ≡ second)
        × (late'.world.choices.networks ≡ second)
        × (late'.waiting ≡ [])
  load_networks_race a b key key' first second w s s' s'' h k e f =
      let (x, y, z) = networks_stayed a b key key' first second w s s' s'' h k e f in
      let (x', y', z') = networks_moved a b key key' first second w s s' s'' h k e f in
      (x, y, z, x', y', z')
