-- ===== src/Creator/Settings.antt =====
-- The two settings forms of the wizard and the cluster of cluster-creator-store.ts that they edit.
use makoon.Prelude.{◌≡◌, refl}
use makoon.World.{ClusterCreatorStore}
use makoon.Creator.{
  SettingsModel, ClusterSettingsModel, update_cluster_settings, update_settings, cluster_settings,
  settings,
}

-- What the cluster form saves is what it shows next, to save what it shows changes nothing, and the
-- fields of the other form, the nodes, the apps and the resources stay as they are.
pub update_cluster_settings_lem :
    (values : ClusterSettingsModel) (s : ClusterCreatorStore)
    → (cluster_settings (update_cluster_settings values s) ≡ values)
      × (update_cluster_settings (cluster_settings s) s ≡ s)
      × (settings (update_cluster_settings values s) ≡ settings s)
      × ((update_cluster_settings values s).cluster.nodes ≡ s.cluster.nodes)
      × ((update_cluster_settings values s).cluster.helm_apps ≡ s.cluster.helm_apps)
      × ((update_cluster_settings values s).cluster.cluster_resources ≡ s.cluster.cluster_resources)
unfolding update_cluster_settings cluster_settings settings
update_cluster_settings_lem values s = (refl, refl, refl, refl, refl, refl)

-- The same of the first form.
pub update_settings_lem :
    (values : SettingsModel) (s : ClusterCreatorStore)
    → (settings (update_settings values s) ≡ values)
      × (update_settings (settings s) s ≡ s)
      × (cluster_settings (update_settings values s) ≡ cluster_settings s)
unfolding update_settings cluster_settings settings
update_settings_lem values s = (refl, refl, refl)
