-- ===== src/Tests/Polling.antt =====
-- Polls that are answered in another order than they were made.
use makoon.Prelude.{ℕ, ◌≡◌, refl, units}
use makoon.Async.{end}
use makoon.Async.Pool.{System, idle, start, deliver}
use makoon.Async.Pool.Keeps.{Reaches, here, called, answered}
use makoon.Async.Pool.Keeps.Polls.{IsPoll, nodes_page, apps_page, still, polls-still}
use makoon.Dialogs.NodeDialogs.{poll_nodes}
use makoon.Management.Actions.{update_apps_status}
use makoon.Tests.Data.{page, agreeing}

-- The page of nodes polls, then that of apps, whose answer comes first.
abbrev polled : System ℕ
polled = deliver agreeing 1 (
    start (update_apps_status (λ _. end))
      (start (poll_nodes (units "a") (units "b") (units "c") (λ _. end)) (idle page 0)))

abbrev so_polled : Reaches agreeing IsPoll (idle page 0) polled
so_polled =
    answered 1
      (called (called here (nodes_page (units "a") (units "b") (units "c") refl)) (apps_page refl))

polls-still_example : still polled.world ≡ still page
polls-still_example = polls-still agreeing page 0 polled so_polled
