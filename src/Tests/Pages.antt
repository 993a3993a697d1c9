-- ===== src/Tests/Pages.antt =====
-- The page of one cluster against a server that agrees and one that refuses.
use makoon.Prelude.{ℕ, map, ◌≡◌, refl, inl, inr, none, some, [], ◌∷◌, false, Text, units, text_eq}
use makoon.Js.Array.{find_index}
use makoon.Model.{HelmApp}
use makoon.Api.{get_clusters, update_helm_app}
use makoon.World.{World, axios_error, object}
use makoon.World.Loaders.{status, is_error}
use makoon.Async.{resolved, end, request}
use makoon.Async.Call.{api_call}
use makoon.Async.Call
use makoon.Async.Pool.{System, idle, start, asked}
use makoon.Async.Refused.{api_call_refused}
use makoon.Async.Run.{run, after_call}
use makoon.Management.Actions.{
  update_nodes_if_there_is_any_lock, set_helm_apps, set_nodes, set_fresh_nodes,
}
use makoon.Management.Apps.{
  update_helm_chart, install_helm_chart_without_handle_global_error_handling,
}
use makoon.Management.Changes.{update_helm_chart_optimistic}
use makoon.Management.Polling.{on_management}
use makoon.Management.Refreshes.{
  refreshed, update_nodes_if_there_is_any_lock-Settles, install_helm_chart_refreshes,
}
use makoon.Tests.Data.{
  first_master, locked_worker, two_nodes, an_app, page, refusal, refusing, agreeing,
}

abbrev key : Text
key = units "k"

abbrev edited : HelmApp
edited = record an_app { namespace = units "prod" }

abbrev refused_at : Text → World → World
refused_at k w = after_call {A = Unit {0}} k refusal w

abbrev editing : System ℕ
editing = start (update_helm_chart key edited (λ _. end)) (idle page 0)

update_helm_chart_optimistic_example :
    (editing.world ≡ Call.start key (on_management (set_helm_apps (edited ∷ [])) page))
    × (map asked editing.waiting ≡ some (update_helm_app (units "lab") edited) ∷ [])
    × (run refusing (update_helm_chart key edited (λ _. end)) page 0
        ≡ (refused_at key (on_management (set_helm_apps (edited ∷ [])) page), 1))
unfolding run find_index
update_helm_chart_optimistic_example =
    update_helm_chart_optimistic refusing key edited (an_app ∷ []) page 0 1 refusal (λ _. end) refl
      refl

update_nodes_if_there_is_any_lock-Settles_example :
    run agreeing (update_nodes_if_there_is_any_lock key (λ _. end)) page 0
    ≡ (on_management (set_fresh_nodes two_nodes) (after_call key (resolved two_nodes) page), 1)
unfolding run
update_nodes_if_there_is_any_lock-Settles_example =
    update_nodes_if_there_is_any_lock-Settles agreeing key first_master (locked_worker ∷ []) page 0
      1 (resolved two_nodes) refl refl (inr (inl refl)) refl (λ _. end)

abbrev unlocked_page : World
unlocked_page = on_management (set_nodes []) page

install_helm_chart_refreshes_example :
    run refusing
      (install_helm_chart_without_handle_global_error_handling (units "a1") (λ _. end))
      page
      0
    ≡ (refreshed refusal page, 2)
unfolding run
install_helm_chart_refreshes_example =
    install_helm_chart_refreshes refusing (units "a1") page 0 1 2 refusal refusal refl refl refl
      (λ _. end)

api_call_refused_example :
    let w' = (run refusing (api_call (request get_clusters) key (λ _. end)) page 0).0 in
    (status key w'.indicator ≡ none)
    × (w'.application.error ≡ object (axios_error (some 500) none))
    × (is_error w'.application ≡ false)
api_call_refused_example =
    api_call_refused refusing get_clusters key page 0 1 (axios_error (some 500) none) refl

-- The page before a cluster is opened.
abbrev closed_page : World
closed_page =
    on_management (λ m. record m { cluster = record m.cluster { cluster_name = [] } }) page
