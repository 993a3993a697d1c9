-- ===== src/Wizard/Provisioning.antt =====
-- A run of `startClusterProvisioning` of web/src-web/src/views/cluster-creator/index.tsx.
use makoon.Prelude.{◌≡◌, ◌∙◌, refl, ap, true, Text}
use makoon.Api.{create_cluster}
use makoon.World.{World}
use makoon.Async.{Outcome, resolved, rejected, end}
use makoon.Async.Run.{Server, run, Settles-call, after_call}
use makoon.Creator.{
  SettingsModel, ClusterSettingsModel, settings, cluster_settings, update_settings,
  update_cluster_settings,
}
use makoon.Creator.Settings.{update_settings_lem, update_cluster_settings_lem}
use makoon.Creator.Generate.{provision_cluster}
use makoon.Wizard.Forms.{next_of_form, submit_settings, submit_cluster}
use makoon.Wizard.{requested, provisioned, start_cluster_provisioning}

-- The page once the server has answered the wizard's request.
abbrev pub after_provisioning : {A : Type 0} → Outcome A → World → World
after_provisioning (resolved _) w = record w { wizard = provisioned w.wizard }
after_provisioning (rejected _) w = w

-- `startClusterProvisioning` sends the wizard's cluster to the server. If the server agrees, the
-- confirmation and the wizard close; if it refuses, the error is stored, and the wizard still waits
-- for an answer.
pub start_cluster_provisioning_runs :
    {S : Type 0} (serve : Server S) (key : Text) (w : World) (s s' : S) (o : Outcome (Unit {0}))
    → serve (create_cluster w.creator.cluster) s ≡ (o, s')
    → run serve (start_cluster_provisioning key (λ _. end)) w s
      ≡ (after_provisioning o (after_call key o (record w { wizard = requested w.wizard })), s')
unfolding start_cluster_provisioning provision_cluster run
start_cluster_provisioning_runs serve key w s s' (resolved u) e =
    rw
      (Settles-call serve (create_cluster w.creator.cluster) key
        (record w { wizard = requested w.wizard }) s (resolved u) s' e)
      refl
start_cluster_provisioning_runs serve key w s s' (rejected f) e =
    rw
      (Settles-call serve (create_cluster w.creator.cluster) key
        (record w { wizard = requested w.wizard }) s (rejected f) s' e)
      refl

-- The first two steps of the wizard are left with valid values, and until the end the wizard's store
-- keeps what these forms show, whatever else is edited. Then `startClusterProvisioning` asks the server
-- for a cluster with the values of both forms, and with the nodes, the apps and the resources that the
-- store has by then. The resets of the forms are taken to leave the wizard's store alone.
pub start_cluster_provisioning-next_of_form :
    {S : Type 0} (serve : Server S) (key : Text) (reset_form : World → World)
    (first : SettingsModel) (second : ClusterSettingsModel) (w v : World) (s s' : S)
    (o : Outcome (Unit {0}))
    → ((u : World) → (reset_form u).creator ≡ u.creator)
    → let w1 = next_of_form true (submit_settings reset_form first) w in
      let w2 = next_of_form true (submit_cluster reset_form second) w1 in
      settings v.creator ≡ settings w2.creator
      → cluster_settings v.creator ≡ cluster_settings w2.creator
      → serve (create_cluster v.creator.cluster) s ≡ (o, s')
      → (settings v.creator ≡ first)
        × (cluster_settings v.creator ≡ second)
        × (run serve (start_cluster_provisioning key (λ _. end)) v s ≡ (
          after_provisioning o (after_call key o (record v { wizard = requested v.wizard })),
          s',
        ))
unfolding next_of_form
start_cluster_provisioning-next_of_form serve key reset_form first second w v s s' o keeps same
      same' e =
    let saved : World = record w { creator = update_settings first w.creator } in
    let w1 = next_of_form true (submit_settings reset_form first) w in
    let creator1 : w1.creator ≡ update_settings first w.creator = keeps saved in
    let creator2 = keeps (record w1 { creator = update_cluster_settings second w1.creator }) in
    (
      same
          ∙ ap settings creator2
          ∙ (update_cluster_settings_lem second w1.creator).2
          ∙ ap settings creator1
          ∙ (update_settings_lem first w.creator).0,
      same' ∙ ap cluster_settings creator2 ∙ (update_cluster_settings_lem second w1.creator).0,
      start_cluster_provisioning_runs serve key v s s' o e,
    )
