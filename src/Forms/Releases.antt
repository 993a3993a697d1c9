-- ===== src/Forms/Releases.antt =====
-- What the schemas of the dialogs for a Helm app and for a Kubernetes resource accept, and what is
-- stored of it.
use makoon.Prelude.{
  ◌≡◌, ◌∙◌, ◌↔◌, ◌≢◌, refl, arith, Bool, true, not, ◌&&◌, Option, none, some, [], is_empty, Text,
}
use makoon.Js.Text.{trim}
use makoon.Js.Array.{push}
use makoon.Model.{HelmApp, ClusterResource}
use makoon.World.{World}
use makoon.Creator.{add_helm_app}
use makoon.Wizard.Dialogs.{submit_app}
use makoon.Forms.{Yup, IsDocumented, trimmed, string, text, required, trims}
use makoon.Forms.Schemas.{schema_add_helm_app, schema_add_workload}
use makoon.Forms.Values.{optional, helm_app_values, workload_values}
use makoon.Forms.Nodes.{is_full_iff}
use makoon.Forms.Clusters.{IsStrictlyFull, is_strictly_full_iff, strictly_required_lem}

-- A text that is not blank.
abbrev is_full : Text → Bool
is_full s = not (is_empty (trim s))

three_iff :
    (a b c : Text)
    → ((is_full a && (is_full b && (true && (true && (is_full c && (true && true)))))) ≡ true)
      ↔ ((trim a ≢ []) × (trim b ≢ []) × (trim c ≢ []))
three_iff a b c = (
  λ h. (
    (is_full_iff (trim a)).0 (ground arith),
    (is_full_iff (trim b)).0 (ground arith),
    (is_full_iff (trim c)).0 (ground arith),
  ),
  λ h. ground (
    arith,
    (is_full_iff (trim a)).1 h.0,
    (is_full_iff (trim b)).1 h.1,
    (is_full_iff (trim c)).1 h.2,
  ),
)

module _ (y : Yup) (doc : IsDocumented y) where
  trimmed_lem :
      (s : Text)
      → (y.holds string trimmed required (text s)
          && (y.holds string trimmed trims (text s) && true))
        ≡ is_full s
  trimmed_lem s = rw (doc.required_text trimmed s, doc.trims_first s) (ground arith)

  optional_lem : (o : Option Text) → (y.holds string trimmed trims (optional o) && true) ≡ true
  optional_lem none = rw doc.trims_missing
  optional_lem (some t) = rw (doc.trims_first t)

  -- The form of a Helm app is valid exactly where release name, chart name and namespace are not
  -- blank, since the schema removes the blanks around a text before it looks at it. A submit of the
  -- wizard's dialog for a new app stores the values as they are, with the blanks.
  pub is_valid-schema_add_helm_app :
      (v : HelmApp) (w : World)
      → ((y.is_valid schema_add_helm_app (helm_app_values v) ≡ true)
          ↔ ((trim v.release_name ≢ []) × (trim v.chart_name ≢ []) × (trim v.namespace ≢ [])))
        × ((submit_app none v w).creator.cluster.helm_apps ≡ push w.creator.cluster.helm_apps v)
  unfolding submit_app add_helm_app
  is_valid-schema_add_helm_app v w =
      let tested = doc.is_valid-keeps schema_add_helm_app (helm_app_values v) ∙ λ i.
      trimmed_lem v.release_name i
      && (trimmed_lem v.chart_name i
          && (optional_lem v.chart_version i
              && (optional_lem (some v.repository) i
                  && (trimmed_lem v.namespace i && (true && true))))) in
      (rw tested (three_iff v.release_name v.chart_name v.namespace), refl)

  -- The form of a Kubernetes resource is valid exactly where name and content are not empty and have no
  -- blanks around them.
  pub is_valid-schema_add_workload :
      (v : ClusterResource)
      → (y.is_valid schema_add_workload (workload_values v) ≡ true)
        ↔ (IsStrictlyFull v.name × IsStrictlyFull v.content)
  is_valid-schema_add_workload v =
      let tested = doc.is_valid-keeps schema_add_workload (workload_values v) ∙ λ i.
      strictly_required_lem y doc v.name i && (strictly_required_lem y doc v.content i && true) in
      let n = is_strictly_full_iff v.name in
      let c = is_strictly_full_iff v.content in
      rw tested
        ((λ h. (n.0 (ground arith), c.0 (ground arith))), λ h. ground (arith, n.1 h.0, c.1 h.1))
