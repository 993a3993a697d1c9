-- ===== src/Forms/Clusters.antt =====
-- What the schemas of the first two steps of the wizard accept.
use makoon.Prelude.{
  ◌≤◌, ◌≡◌, ◌∙◌, ◌↔◌, ◌≢◌, ◌⊎◌, refl, ap, arith, Bool, true, not, ◌&&◌, [], ◌∷◌, All, length,
  is_empty, List, Text, text_eq, ◌==◌, ==_iff, Bool-cases, inl, inr,
}
use makoon.Prelude.Int.{pos}
use makoon.Js.Array.{find}
use makoon.Js.Text.{trim}
use makoon.Model.{ClusterHeader}
use makoon.Patterns.{hostname_main, hostname_start, hostname_end}
use makoon.Patterns.Names.{is_name}
use makoon.World.{World, ClustersListStore}
use makoon.Wizard.Forms.{next_of_form, submit_cluster}
use makoon.Creator.{SettingsModel, ClusterSettingsModel, cluster_settings, update_cluster_settings}
use makoon.Forms.{
  Yup, IsDocumented, plain, strictly, string, text, required, strict, trims, max, matches, passes,
}
use makoon.Forms.Schemas.{cluster_schema, settings_schema, is_name_available}
use makoon.Forms.Values.{cluster_values, settings_values}
use makoon.Forms.Nodes.{is_node_name, name_tests, is_full_iff}

abbrev pub is_strictly_full : Text → Bool
is_strictly_full s = not (is_empty s) && (trim s == s)

-- A text that is not empty and has no blanks around it.
abbrev pub IsStrictlyFull : Text → Type 0
IsStrictlyFull s = (s ≢ []) × (trim s ≡ s)

pub is_strictly_full_iff : (s : Text) → (is_strictly_full s ≡ true) ↔ IsStrictlyFull s
is_strictly_full_iff s = (
  λ h. ((is_full_iff s).0 (ground arith), (==_iff (trim s) s).0 (ground arith)),
  λ h. ground (arith, (is_full_iff s).1 h.0, (==_iff (trim s) s).1 h.1),
)

is_name_available_iff :
    (s : ClustersListStore) (name : Text)
    → (is_name_available s name ≡ true) ↔ All (λ (e : ClusterHeader). e.name ≢ name) s.clusters
unfolding is_name_available find
is_name_available_iff s name = in_list s.clusters
  where
    in_list :
        (clusters : List ClusterHeader)
        → (is_name_available (record { clusters = clusters }) name ≡ true)
          ↔ All (λ (e : ClusterHeader). e.name ≢ name) clusters
    in_list [] = (λ _. tt, λ _. refl)
    in_list (e ∷ es) = elim (Bool-cases (e.name == name)) [
      | inl h ↦ (λ free. ground arith, λ others. absurd (others.0 ((==_iff e.name name).0 h)))
      | inr h ↦ (
        λ free. ((λ k. ground (arith, (==_iff e.name name).1 k)), (in_list es).0 (ground arith)),
        λ others. ground (arith, (in_list es).1 others.1),
      )
    ]

all_four :
    {a b c d : Bool} {A B C D : Type 0}
    → ((a ≡ true) ↔ A)
    → ((b ≡ true) ↔ B)
    → ((c ≡ true) ↔ C)
    → ((d ≡ true) ↔ D)
    → ((a && (b && (c && (d && true)))) ≡ true) ↔ (A × B × C × D)
all_four {a} {b} {c} {d} f g h k = (
  λ e. (f.0 (ground arith), g.0 (ground arith), h.0 (ground arith), k.0 (ground arith)),
  λ e. ground (arith, f.1 e.0, g.1 e.1, h.1 e.2, k.1 e.3),
)

-- What the second step of the wizard asks of its values, with `clusters` the known ones.
abbrev pub IsClusterForm : ClustersListStore → ClusterSettingsModel → Type 0
IsClusterForm clusters v =
    (is_name v.cluster_name ≡ true)
    × (length v.cluster_name ≤ 128)
    × All (λ (e : ClusterHeader). e.name ≢ v.cluster_name) clusters.clusters
    × IsStrictlyFull v.node_username
    × IsStrictlyFull v.node_password
    × (v.network.bridge ≢ [])
    × IsStrictlyFull v.network.gateway
    × IsStrictlyFull v.network.dns

IsClusterForm-iff :
    (clusters : ClustersListStore) (v : ClusterSettingsModel)
    → ((is_node_name v.cluster_name
          && is_name_available clusters v.cluster_name
          && (is_strictly_full v.node_username
              && (is_strictly_full v.node_password
                  && (not (is_empty v.network.bridge)
                      && true
                      && (is_strictly_full v.network.gateway
                          && (is_strictly_full v.network.dns && true))))))
        ≡ true)
      ↔ IsClusterForm clusters v
IsClusterForm-iff clusters v =
    let net = v.network in
    (
      λ h. (
        ground arith,
        ground arith,
        (is_name_available_iff clusters v.cluster_name).0 (ground arith),
        (is_strictly_full_iff v.node_username).0 (ground arith),
        (is_strictly_full_iff v.node_password).0 (ground arith),
        (is_full_iff net.bridge).0 (ground arith),
        (is_strictly_full_iff net.gateway).0 (ground arith),
        (is_strictly_full_iff net.dns).0 (ground arith),
      ),
      λ h. ground (
        arith,
        (is_name_available_iff clusters v.cluster_name).1 h.2,
        (is_strictly_full_iff v.node_username).1 h.3,
        (is_strictly_full_iff v.node_password).1 h.4,
        (is_full_iff net.bridge).1 h.5,
        (is_strictly_full_iff net.gateway).1 h.6,
        (is_strictly_full_iff net.dns).1 h.7,
      ),
    )

module _ (y : Yup) (doc : IsDocumented y) where
  -- A strictly required field.
  pub strictly_required_lem :
      (s : Text)
      → (y.holds string strictly required (text s)
          && (y.holds string strictly strict (text s)
              && (y.holds string strictly trims (text s) && true)))
        ≡ is_strictly_full s
  strictly_required_lem s =
      rw
        (doc.required_text strictly s, doc.is_strict string strictly (text s), doc.trims_strictly s)
        (ground arith)

  -- The first step of the wizard is valid exactly where each of its four texts is not empty and has no
  -- blanks around it.
  pub is_valid-settings_schema :
      (v : SettingsModel)
      → (y.is_valid settings_schema (settings_values v) ≡ true) ↔ (
          IsStrictlyFull v.node
          × IsStrictlyFull v.os_image
          × IsStrictlyFull v.os_image_storage
          × IsStrictlyFull v.kube_version)
  is_valid-settings_schema v =
      let tested = doc.is_valid-keeps settings_schema (settings_values v) ∙ λ i.
      strictly_required_lem v.node i
      && (strictly_required_lem v.os_image i
          && (strictly_required_lem v.os_image_storage i
              && (strictly_required_lem v.kube_version i && true))) in
      rw tested (
        all_four (is_strictly_full_iff v.node) (is_strictly_full_iff v.os_image)
          (is_strictly_full_iff v.os_image_storage) (is_strictly_full_iff v.kube_version))

  cluster_name_lem :
      (clusters : ClustersListStore) (s : Text)
      → (y.holds string strictly required (text s)
          && (y.holds string strictly strict (text s)
              && (y.holds string strictly trims (text s)
                  && (y.holds string strictly (max 128) (text s)
                      && (y.holds string strictly (matches hostname_start) (text s)
                          && (y.holds string strictly (matches hostname_main) (text s)
                              && (y.holds string strictly (matches hostname_end) (text s)
                                  && (y.holds string strictly
                                        (passes (is_name_available clusters))
                                        (text s)
                                      && true))))))))
        ≡ (is_node_name s && is_name_available clusters s)
  cluster_name_lem clusters s =
      rw
        (
          doc.required_text strictly s,
          doc.is_strict string strictly (text s),
          doc.trims_strictly s,
          doc.max_text strictly 128 s,
          doc.matches_text strictly hostname_start s,
          doc.matches_text strictly hostname_main s,
          doc.matches_text strictly hostname_end s,
          doc.passes_text strictly (is_name_available clusters) s,
        )
        (ground (arith, name_tests s))

  -- The second step of the wizard is valid exactly where the name of the cluster is a name of at most
  -- 128 units that no known cluster has, user name, password, gateway and DNS server are not empty and
  -- have no blanks around them, and a bridge is chosen.
  pub is_valid-cluster_schema :
      (clusters : ClustersListStore) (v : ClusterSettingsModel)
      → (y.is_valid (cluster_schema clusters) (cluster_values v) ≡ true) ↔ IsClusterForm clusters v
  is_valid-cluster_schema clusters v =
      let tested = doc.is_valid-keeps (cluster_schema clusters) (cluster_values v) ∙ λ i.
      cluster_name_lem clusters v.cluster_name i
      && (strictly_required_lem v.node_username i
          && (strictly_required_lem v.node_password i
              && ((doc.required_number plain (pos v.disk_size) i && true)
                  && ((doc.required_text plain v.network.bridge i && true)
                      && ((doc.required_number plain (pos v.network.subnet_mask) i && true)
                          && (strictly_required_lem v.network.gateway i
                              && (strictly_required_lem v.network.dns i && true))))))) in
      rw tested (IsClusterForm-iff clusters v)

  -- After "Next" on the second step either the wizard's store is as it was, or it has the values of the
  -- form, and these are what the form asks for, so no known cluster has the name. The reset of the form
  -- is taken to leave the wizard's store alone.
  pub next_of_form-IsClusterForm :
      (reset_form : World → World) (values : ClusterSettingsModel) (w : World)
      → ((v : World) → (reset_form v).creator ≡ v.creator)
      → let is_valid = y.is_valid (cluster_schema w.clusters_list) (cluster_values values) in
        let v = next_of_form is_valid (submit_cluster reset_form values) w in
        (v.creator ≡ w.creator)
        ⊎ ((cluster_settings v.creator ≡ values) × IsClusterForm w.clusters_list values)
  unfolding next_of_form cluster_settings update_cluster_settings
  next_of_form-IsClusterForm reset_form values w keeps =
      let accepts = is_valid-cluster_schema w.clusters_list values in
      elim (Bool-cases (y.is_valid (cluster_schema w.clusters_list) (cluster_values values))) [
        | inl valid ↦ inr (rw valid (ap cluster_settings (keeps _)), accepts.0 valid)
        | inr invalid ↦ inl (rw invalid refl)
      ]
