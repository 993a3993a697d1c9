-- ===== src/Wizard/Building/Ready.antt =====
-- What holds of every cluster that the wizard asks the server to create.
use makoon.Prelude.{
  ◌≤◌, ◌≡◌, ◌∙◌, sym, refl, ap, arith, Bool, true, false, List, [], ◌∷◌, All, length, nat_eq, ◌==◌,
  if◌then◌else◌, ◌||◌, leb, ==_iff,
}
use makoon.Js.Array.Sorting.{All-imp}
use makoon.Model.{ClusterRequest}
use makoon.World.{World, Wizard, ClustersListStore}
use makoon.Creator.{
  settings, cluster_settings, update_settings, update_cluster_settings, master_nodes,
}
use makoon.Creator.Settings.{update_settings_lem, update_cluster_settings_lem}
use makoon.Wizard.{hide_confirmation, requested, next_step, click_previous}
use makoon.Wizard.Forms.{
  IsComplete, nodes_step_disabled-All, next_of_form, submit_settings, submit_cluster,
}
use makoon.Wizard.Building.{
  Building, index, Event, types_first, types_second, edits_nodes, edits_apps, next, back, no, yes,
  hide, effects, enter, pass, first_valid, second_valid, confirming, answering, handle, handle_all,
  on_store, on_wizard, with_nodes, with_apps,
}
use makoon.Forms.{Yup, IsDocumented}
use makoon.Forms.Schemas.{settings_schema, cluster_schema}
use makoon.Forms.Values.{settings_values, cluster_values}
use makoon.Forms.Clusters.{
  IsStrictlyFull, IsClusterForm, is_valid-settings_schema, is_valid-cluster_schema,
}
use makoon.Wizard.Building.Stored.{
  store_of, Stored, Shown, effects-Shown, effects-Stored, enter-Stored, nodes-Stored, apps-Stored,
  left_first-Stored, left_second-Stored, first_step_lem, second_step_lem, pass_rest-Stored,
  back-Stored, yes-Stored, hide-Stored, first-Stored,
}

if_case :
    {A : Type 0} (P : A → Type 0) (t : Bool) (b c : A)
    → (t ≡ true → P b)
    → (t ≡ false → P c)
    → P (if t then b else c)
if_case P true b c h k = h refl
if_case P false b c h k = k refl

module _ (y : Yup) (reset_form : World → World) (clusters : ClustersListStore)
    (keeps : (w : World) → (reset_form w).creator ≡ w.creator)
    (stays : (w : World) → (reset_form w).wizard ≡ w.wizard)
    (knows : (w : World) → (reset_form w).clusters_list ≡ w.clusters_list) where
  pass_first-Stored :
      (b : Building)
      → index b ≡ 0
      → first_valid y b ≡ true
      → confirming b ≡ false
      → Stored y clusters b
      → Stored y clusters (record b {
        world = next_of_form (first_valid y b) (submit_settings reset_form b.first) b.world;
      })
  unfolding next_of_form
  pass_first-Stored b e valid closed (l, _, _, _, _, a) =
      let saved : World = record b.world { creator = update_settings b.first b.world.creator } in
      let z = b.world.wizard in
      let same : next_step z (reset_form saved).wizard ≡ next_step z z =
        ap (next_step z) (stays saved) in
      let (i, c) = first_step_lem y clusters z e in
      rw valid (
        left_first-Stored y clusters
          (record b {
            world = record (reset_form saved) { wizard = next_step z (reset_form saved).wizard };
          })
          (knows saved ∙ l) (ap (λ (v : Wizard). v.active_index) same ∙ i)
          (ap (λ s. y.is_valid settings_schema (settings_values (settings s))) (keeps saved)
            ∙ ap (λ v. y.is_valid settings_schema (settings_values v))
                (update_settings_lem b.first b.world.creator).0
            ∙ valid)
          (ap (λ (v : Wizard). v.show_provisioning_confirmation) same ∙ c ∙ closed) a)

  pass_second-Stored :
      (b : Building)
      → index b ≡ 1
      → second_valid y b ≡ true
      → confirming b ≡ false
      → Stored y clusters b
      → Stored y clusters (record b {
        world = next_of_form (second_valid y b) (submit_cluster reset_form b.second) b.world;
      })
  unfolding next_of_form
  pass_second-Stored b e valid closed (l, f, _, _, _, a) =
      let saved : World = record b.world {
        creator = update_cluster_settings b.second b.world.creator;
      } in
      let z = b.world.wizard in
      let same : next_step z (reset_form saved).wizard ≡ next_step z z =
        ap (next_step z) (stays saved) in
      let (i, c) = second_step_lem y clusters z e in
      let (shows, _, others, _, _, _) = update_cluster_settings_lem b.second b.world.creator in
      rw valid (
        left_second-Stored y clusters
          (record b {
            world = record (reset_form saved) { wizard = next_step z (reset_form saved).wizard };
          })
          (knows saved ∙ l) (ap (λ (v : Wizard). v.active_index) same ∙ i)
          (ap (λ s. y.is_valid settings_schema (settings_values (settings s))) (keeps saved)
            ∙ ap (λ v. y.is_valid settings_schema (settings_values v)) others
            ∙ f (omega arith))
          (ap (λ s. y.is_valid (cluster_schema clusters) (cluster_values (cluster_settings s)))
              (keeps saved)
            ∙ ap (λ v. y.is_valid (cluster_schema clusters) (cluster_values v)) shows
            ∙ ap (λ k. y.is_valid (cluster_schema k) (cluster_values b.second)) (sym l)
            ∙ valid)
          (ap (λ (v : Wizard). v.show_provisioning_confirmation) same ∙ c ∙ closed) a)

  next-Stored :
      (b : Building)
      → b.world.wizard.next_disabled ≡ false
      → confirming b ≡ false
      → Shown y clusters b
      → Stored y clusters b
      → Stored y clusters (pass y reset_form b)
  next-Stored b enabled closed shown h =
      if_case (Stored y clusters) (index b == 0) _ _
        (λ e.
          let at = (==_iff (index b) 0).0 e in
          pass_first-Stored b at ((shown enabled).0 at) closed h)
        (λ e.
          if_case (Stored y clusters) (index b == 1) _ _
            (λ e1.
              let at = (==_iff (index b) 1).0 e1 in
              pass_second-Stored b at ((shown enabled).1 at) closed h)
            (λ e1. pass_rest-Stored y clusters b (ground arith) (shown enabled).2 closed h))

  -- What holds after every event.
  abbrev Holds : Building → Type 0
  Holds b = Stored y clusters b × Shown y clusters b

  entered : (b : Building) → Stored y clusters b → Holds (enter y b)
  entered b h = (
    enter-Stored y clusters b h,
    effects-Shown y clusters
        (record b { first = settings b.world.creator; second = cluster_settings b.world.creator }),
  )

  handle-Holds : (e : Event) (b : Building) → Holds b → Holds (handle y reset_form e b)
  handle-Holds (types_first values) b h =
      let typed = record b { first = values } in
      if_case Holds (index b == 0) (effects y typed) b
        (λ _. (effects-Stored y clusters typed h.0, effects-Shown y clusters typed)) (λ _. h)
  handle-Holds (types_second values) b h =
      let typed = record b { second = values } in
      if_case Holds (index b == 1) (effects y typed) b
        (λ _. (effects-Stored y clusters typed h.0, effects-Shown y clusters typed)) (λ _. h)
  handle-Holds (edits_nodes nodes) b h =
      let edited = on_store (with_nodes nodes) b in
      if_case Holds (index b == 2) (effects y edited) b
        (λ e. (
          effects-Stored y clusters edited
              (nodes-Stored y clusters b nodes ((==_iff (index b) 2).0 e) h.0),
          effects-Shown y clusters edited,
        ))
        (λ _. h)
  handle-Holds (edits_apps apps resources) b h =
      let edited = on_store (with_apps apps resources) b in
      if_case Holds (leb 3 (index b)) edited b
        (λ e. (
          apps-Stored y clusters b apps resources h.0,
          λ _. (
            (λ k. absurd (ground arith)),
            (λ k. absurd (ground arith)),
            (λ k. absurd (ground arith)),
          ),
        ))
        (λ _. h)
  handle-Holds next b h =
      if_case Holds (confirming b || b.world.wizard.next_disabled) b (enter y (pass y reset_form b))
        (λ _. h)
        (λ e. entered (pass y reset_form b) (next-Stored b (ground arith) (ground arith) h.1 h.0))
  handle-Holds back b h =
      let left = on_wizard (λ z. click_previous z z) b in
      if_case Holds (confirming b) b (enter y left) (λ _. h)
        (λ e. entered left (back-Stored y clusters b e h.0))
  handle-Holds no b h =
      if_case Holds (answering b) (on_wizard hide_confirmation b) b
        (λ _. (hide-Stored y clusters b h.0, h.1)) (λ _. h)
  handle-Holds hide b h =
      if_case Holds (confirming b) (on_wizard hide_confirmation b) b
        (λ _. (hide-Stored y clusters b h.0, h.1)) (λ _. h)
  handle-Holds yes b h =
      if_case Holds (answering b)
        (record (on_wizard requested b) { sent = b.world.creator.cluster ∷ b.sent }) b
        (λ e. (yes-Stored y clusters b (ground arith) h.0, h.1)) (λ _. h)

  handle_all-Holds :
      (es : List Event) (b : Building) → Holds b → Holds (handle_all y reset_form es b)
  handle_all-Holds [] b h = h
  handle_all-Holds (e ∷ es) b h = handle_all-Holds es (handle y reset_form e b) (handle-Holds e b h)

-- What the wizard's steps ask for, of a cluster to create.
abbrev pub IsReady : ClustersListStore → ClusterRequest → Type 0
IsReady clusters c =
    IsStrictlyFull c.node
    × IsStrictlyFull c.os_image
    × IsStrictlyFull c.os_image_storage
    × IsStrictlyFull c.kube_version
    × IsClusterForm clusters (cluster_settings (store_of c))
    × (1 ≤ length (master_nodes (store_of c)))
    × All IsComplete c.nodes

-- Whatever the user does in the wizard from its first step on, in whatever order, with "Back" as often
-- as one likes: each cluster that the server is asked to create has the settings that the first form
-- asks for, a name and settings that the second asks for, so no known cluster has its name, at least one
-- master, and nodes with a storage pool and an address each. The list of known clusters is taken to stay
-- as it is, the resets of the forms to leave the wizard and its store alone, `y` to be what the
-- documentation of the library Yup says, each validation to be done before the next event, and the answer
-- with the cluster by default to have come before the first.
pub handle_all-IsReady :
    (y : Yup) (doc : IsDocumented y) (reset_form : World → World)
    → ((w : World) → (reset_form w).creator ≡ w.creator)
    → ((w : World) → (reset_form w).wizard ≡ w.wizard)
    → ((w : World) → (reset_form w).clusters_list ≡ w.clusters_list)
    → (b : Building) → index b ≡ 0
    → confirming b ≡ false
    → b.sent ≡ []
    → (es : List Event)
    → All (IsReady b.world.clusters_list) (handle_all y reset_form es (enter y b)).sent
unfolding settings
handle_all-IsReady y doc reset_form keeps stays knows b i c e es =
    let clusters = b.world.clusters_list in
    let started =
      entered y reset_form clusters keeps stays knows b (first-Stored y clusters b refl i c e) in
    let last = handle_all-Holds y reset_form clusters keeps stays knows es (enter y b) started in
    All-imp (handle_all y reset_form es (enter y b)).sent
      (λ c (f, g, h).
        let (n, o, s, k) = (is_valid-settings_schema y doc (settings (store_of c))).0 f in
        let (masters, complete) = (nodes_step_disabled-All (store_of c)).0 h in
        (
          n,
          o,
          s,
          k,
          (is_valid-cluster_schema y doc clusters (cluster_settings (store_of c))).0 g,
          masters,
          complete,
        ))
      last.0.5
