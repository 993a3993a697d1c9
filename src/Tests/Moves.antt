-- ===== src/Tests/Moves.antt =====
-- The guard of the routes, the confirmation of a deletion, and clicks on the pages of nodes.
use makoon.Prelude.{◌≡◌, refl, true, some, [], ◌∷◌, All, units, text_eq}
use makoon.Model.{sync, worker}
use makoon.World.{World}
use makoon.World.Loaders.{status, get}
use makoon.Async.Call.{start}
use makoon.Dialogs.{is_locked_page}
use makoon.Routes.{occurs, locked, loading_indicator_delete_cluster, delete_footer}
use makoon.Routes.Paths.{IsLogin, rendered, router, all_matches, rendered-router}
use makoon.Routes.Destroying.{
  ClusterPage, IsConfirmed, Steps, none_left, then_one, destroy, types, yes, set_shown,
  Steps-IsConfirmed,
}
use makoon.Pages.NodesPage.{
  first_rendered, add_clicked, row_clicked, add_closed, edit_closed, handle_all, add_dialog,
  handle_all-add_clicked,
}
use makoon.Tests.Data.{page}

rendered-router_example :
    All (λ es. IsLogin (rendered (units "theme=dark") es)) (all_matches router)
unfolding occurs
rendered-router_example = rendered-router (units "theme=dark") refl

-- A cookie of any name that ends with `id` passes for that of a session.
grid_cookie : occurs (units "id=") (units "grid=on") ≡ true
unfolding occurs
grid_cookie = refl

abbrev in_sync : World
in_sync = record page {
  management = record page.management {
    cluster = record page.management.cluster { status = some sync };
  };
}

abbrev first_page : ClusterPage
first_page = record { world = in_sync; typed = []; pending = 0; sent = [] }

abbrev deleting : ClusterPage
deleting = record {
  world = start loading_indicator_delete_cluster (set_shown true in_sync);
  typed = units "lab";
  pending = 1;
  sent = (units "lab", units "lab") ∷ [];
}

deleting_run : Steps first_page deleting
unfolding locked delete_footer status get
deleting_run =
    then_one (then_one (then_one none_left (destroy refl)) (types (units "lab") refl refl))
      (yes refl refl)

Steps-IsConfirmed_example : IsConfirmed deleting
unfolding status get
Steps-IsConfirmed_example = Steps-IsConfirmed (refl, refl, refl) deleting_run

worker_asked :
    add_dialog (
      handle_all
        (row_clicked (units "100") in_sync.management
          ∷ add_closed
          ∷ add_clicked worker in_sync.management
          ∷ edit_closed
          ∷ [])
        first_rendered)
    ≡ some worker
unfolding is_locked_page
worker_asked =
    handle_all-add_clicked (row_clicked (units "100") in_sync.management ∷ add_closed ∷ [])
      (edit_closed ∷ []) worker in_sync.management first_rendered refl (refl, tt)
