-- ===== src/Tests/Reopening.antt =====
-- Forms that are opened again, and what can be typed into them.
use mathlib.Core.Path.{subst}
use makoon.Prelude.{
  ◌≡◌, refl, true, false, some, [], ◌∷◌, Text, units, text_eq, ◌==◌, if◌then◌else◌, Bool-cases, inl,
  inr, ==_iff,
}
use makoon.Prelude.Int.{pos}
use makoon.Js.Array.{find}
use makoon.Model.{HelmApp}
use makoon.World.{World}
use makoon.Creator.{find_node, has_release}
use makoon.Dialogs.NodeDialogs.{NodeFormModel}
use makoon.Routes.{FormValues, remember_all}
use makoon.Routes.Recall.{SetFieldValue, recall, initial_login, initial_values, recall-remember_all}
use makoon.Wizard.Dialogs.{submit_node}
use makoon.Wizard.Initials.{shown_of, initial_node, initial_node-submit_node}
use makoon.Forms.{FieldValue, numeric}
use makoon.Forms.Values.{node_values}
use makoon.Forms.Inputs.{opened, types}
use makoon.Forms.Inputs.Typing.{unchanged-Typed}
use makoon.Tests.Data.{an_app, a_resource, first_master, page}

-- A form library with the two fields that the login form sets.
abbrev set_login_field : SetFieldValue
set_login_field name t v =
    if name == units "host"
    then record v { host = t }
    else if name == units "username"
    then record v { username = t }
    else v

abbrev login_values : FormValues
login_values = record {
  host = units "10.0.0.2";
  username = units "makoon";
  password = units "secret";
}

recall-remember_all_example :
    recall set_login_field (remember_all login_values page).browser (initial_login, initial_values)
    ≡ (
      record { login_error = false; remember_ip = true; remember_username = false },
      record { host = units "10.0.0.2"; username = []; password = [] },
    )
recall-remember_all_example =
    recall-remember_all set_login_field login_values page (λ t v. refl) (λ t v. refl) refl refl

abbrev larger : NodeFormModel
larger = record (shown_of first_master) { cores = 8 }

first_found : find_node (pos 100) page.creator ≡ some first_master
unfolding find_node find
first_found = refl

initial_node-submit_node_example :
    initial_node (some (pos 100)) (submit_node (λ w. w) larger (some (pos 100)) page).creator
    ≡ some larger
initial_node-submit_node_example =
    initial_node-submit_node (λ w. w) larger (pos 100) first_master page (λ v. refl) refl
      first_found refl

abbrev with_app : World
with_app = record page {
  creator = record page.creator {
    cluster = record page.creator.cluster { helm_apps = an_app ∷ [] };
  };
}

abbrev other_chart : HelmApp
other_chart = record an_app { chart_name = units "apache" }

app_found : find (has_release (units "web")) with_app.creator.cluster.helm_apps ≡ some an_app
unfolding find
app_found = refl

abbrev set_value : Text → FieldValue → (Text → FieldValue) → Text → FieldValue
set_value n v values m = if n == m then v else values m

-- Eight cores are typed, and then again the two that the node has.
abbrev typed_back : Text → FieldValue
typed_back =
    set_value (units "cores") (numeric (pos 2))
      (set_value (units "cores") (numeric (pos 8)) (node_values (shown_of first_master)))

typed_back_lem : (n : Text) → typed_back n ≡ node_values (shown_of first_master) n
typed_back_lem n = elim (Bool-cases (units "cores" == n)) [
  | inl e ↦
      subst (λ k. typed_back k ≡ node_values (shown_of first_master) k)
        ((==_iff (units "cores") n).0 e) refl
  | inr e ↦ rw e refl
]

unchanged-Typed_example : shown_of first_master ≡ shown_of first_master
unchanged-Typed_example =
    unchanged-Typed set_value (λ n m v values. refl) first_master (shown_of first_master)
      (types {n = units "cores"} (numeric (pos 2))
        (types {n = units "cores"} (numeric (pos 8)) opened refl) refl)
      typed_back_lem refl refl

-- Two resources, the second of which is clicked.
abbrev with_resources : World
with_resources = record page {
  creator = record page.creator {
    cluster = record page.creator.cluster {
      cluster_resources = a_resource ∷ record a_resource { name = units "other" } ∷ [];
    };
  };
}
