-- ===== src/Hooks.antt =====
-- web/src-web/src/utils/hooks.ts: when the hooks call the function they are given.
pub mod Polls
use makoon.Prelude.{ℕ, ◌+◌, Bool, true, false, not, Option, some, Eq, if◌then◌else◌}
use makoon.Model.Names.{option_beq}
use makoon.Async.{Outcome, resolved, rejected}

-- A component that polls: the reference of `useInterval`, whether the timer is set, the calls of
-- `fn` that have not settled, and how often `fn` has been called.
pub record Poller : Type 0 where
  pub nodes_status_request_finish : Bool
  pub mounted : Bool
  pub in_flight : ℕ
  pub calls : ℕ

abbrev pub mounted_poller : Poller
mounted_poller = record {
  nodes_status_request_finish = true;
  mounted = true;
  in_flight = 0;
  calls = 0;
}

abbrev call_fn : Poller → Poller
call_fn p = record p {
  nodes_status_request_finish = false;
  in_flight = p.in_flight + 1;
  calls = p.calls + 1;
}

-- The callback of the timer, up to its `await`.
unfoldable pub tick : Poller → Poller
tick p = if p.nodes_status_request_finish then call_fn p else p

-- The rest of the callback, where `fn` has resolved.
abbrev pub resume : Poller → Poller
resume p = record p { nodes_status_request_finish = true }

-- What the callback does when its `await` has ended: where `fn` has rejected, the rest is not run.
abbrev pub after_await : Outcome (Unit {0}) → Poller → Poller
after_await (resolved _) p = resume p
after_await (rejected _) p = p

-- The cleanup of the effect: `clearInterval`.
abbrev pub unmount : Poller → Poller
unmount p = record p { mounted = false }

-- The reference of `useOnFirstMount`, and how often `fn` has been called.
pub record FirstMount : Type 0 where
  pub already_initialized : Bool
  pub calls : ℕ

-- The effect, which React may run several times for one component.
unfoldable pub effect_on_first_mount : FirstMount → FirstMount
effect_on_first_mount m =
    if not m.already_initialized
    then record { already_initialized = true; calls = m.calls + 1 }
    else m

-- `useAsyncEffect`: the values that the effect depends on, where it has run, and how often `fn` has
-- been called.
pub record AsyncEffect (D : Type 0) : Type 0 where
  pub deps : Option D
  pub calls : ℕ

-- A render with the dependencies `deps`: React runs the effect where they differ from those of the
-- render before.
unfoldable pub render_async_effect : {D : Type 0} ⦃e : Eq D⦄ → D → AsyncEffect D → AsyncEffect D
render_async_effect deps f =
    if option_beq f.deps (some deps) then f else record { deps = some deps; calls = f.calls + 1 }
