-- ===== src/Tests/Elements.antt =====
-- A page whose cluster is not in sync, the menus, and the confirmation.
use makoon.Prelude.{ℕ, ◌≡◌, refl, some, [], ◌∷◌, units}
use makoon.Model.{deployed}
use makoon.Async.{end}
use makoon.Async.Pool.{System, idle, start, deliver}
use makoon.Management.{HelmAppWithStatus}
use makoon.Management.Actions.{update_apps_status}
use makoon.Dialogs.Releases
use makoon.Pages.Elements.{click_app}
use makoon.Routes.{locked}
use makoon.Routes.Menus.{click_destroy, cluster_header, list_header, header_shown}
use makoon.Tests.Data.{page, agreeing, an_app}

abbrev a_row : HelmAppWithStatus
a_row = record { app = an_app; status = some deployed }

-- The row is clicked, and the poll for statuses is answered.
abbrev clicked : System ℕ
clicked = deliver agreeing 0 (start (update_apps_status (λ _. end)) (idle (click_app a_row page) 0))

header_tests :
    (header_shown (units "10.0.0.2") (cluster_header (some (units "lab")))
      ≡ units "Cluster" ∷ units "lab" ∷ units "10.0.0.2" ∷ [])
    × (header_shown (units "10.0.0.2") list_header
        ≡ units "Running" ∷ units "Clusters" ∷ units "Create cluster" ∷ units "10.0.0.2" ∷ [])
header_tests = (refl, refl)

-- "Destroy" does nothing while the cluster is neither in sync nor in error.
destroy_while_locked : click_destroy page ≡ page
unfolding locked
destroy_while_locked = refl
