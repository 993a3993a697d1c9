-- ===== src/Hooks/Polls.antt =====
-- The life of a polling component of web/src-web/src/utils/hooks.ts.
use makoon.Prelude.{
  ℕ, zero, suc, ◌+◌, ◌≤◌, ◌≡◌, refl, ap, ◌∙◌, arith, true, false, Bool-cases, inl, inr,
}
use makoon.World.{Failure}
use makoon.Async.{Outcome, resolved, rejected}
use makoon.Hooks.{
  Poller, mounted_poller, tick, after_await, unmount, FirstMount, effect_on_first_mount,
}

pub data Step (p : Poller) : Poller → Type 0 where
  ticked : p.mounted ≡ true → Step p (tick p)
  settled :
      {n : ℕ} (o : Outcome (Unit {0}))
      → p.in_flight ≡ n + 1
      → Step p (record (after_await o p) { in_flight = n })
  unmounted : Step p (unmount p)

pub data Steps (p : Poller) : Poller → Type 0 where
  stay : Steps p p
  and_step : {q r : Poller} → Steps p q → Step q r → Steps p r

-- At most one call has not settled, and there is none while the reference says so.
abbrev pub IsPolling : Poller → Type 0
IsPolling p = (p.in_flight ≤ 1) × (p.nodes_status_request_finish ≡ true → p.in_flight ≡ 0)

Step-IsPolling : {p q : Poller} → IsPolling p → Step p q → IsPolling q
unfolding tick
Step-IsPolling {p} (a, b) (ticked m) = elim (Bool-cases p.nodes_status_request_finish) [
  | inl e ↦ let z = b e in rw e (omega arith, λ f. absurd (ground arith))
  | inr e ↦ rw e (a, λ f. absurd (ground arith))
]
Step-IsPolling (a, b) (settled (resolved _) e) = (omega arith, λ _. omega arith)
Step-IsPolling (a, b) (settled (rejected _) e) = (omega arith, λ _. omega arith)
Step-IsPolling h unmounted = h

-- In the life of a component that polls, at most one call of `fn` by `useInterval` has not settled,
-- and none while the reference says that the last one has finished.
pub Steps-IsPolling : {p : Poller} → Steps mounted_poller p → IsPolling p
Steps-IsPolling stay = (omega arith, λ _. refl)
Steps-IsPolling (and_step h k) = Step-IsPolling (Steps-IsPolling h) k

-- A call has failed: nothing is in flight, and the reference says that something is.
abbrev pub IsDead : Poller → Type 0
IsDead p = (p.nodes_status_request_finish ≡ false) × (p.in_flight ≡ 0)

Step-IsDead : {p q : Poller} → IsDead p → Step p q → IsDead q × (q.calls ≡ p.calls)
unfolding tick
Step-IsDead {p} (a, b) (ticked m) = rw a ((refl, b), refl)
Step-IsDead (a, b) (settled o e) = absurd (omega arith)
Step-IsDead h unmounted = (h, refl)

Steps-IsDead : {p q : Poller} → IsDead p → Steps p q → IsDead q × (q.calls ≡ p.calls)
Steps-IsDead h stay = (h, refl)
Steps-IsDead h (and_step k e) =
    let (j, c) = Steps-IsDead h k in let (j', c') = Step-IsDead j e in (j', c' ∙ c)

-- At any moment of a polling component's life: once a call of `fn` by `useInterval` has been rejected,
-- `fn` is never called again, whatever comes after, and nothing is in flight.
pub Steps-after_await :
    {p q : Poller} {n : ℕ} (f : Failure)
    → Steps mounted_poller p
    → p.in_flight ≡ n + 1
    → Steps (record (after_await (rejected f) p) { in_flight = n }) q
    → (q.calls ≡ p.calls) × (q.in_flight ≡ 0)
Steps-after_await {p} f so_far e after =
    let (few, none_if) = Steps-IsPolling so_far in
    let off : p.nodes_status_request_finish ≡ false =
      elim (Bool-cases p.nodes_status_request_finish) [
        | inl on ↦ (let z = none_if on in absurd (omega arith))
        | inr off ↦ off
      ] in
    let ((_, z), same) = Steps-IsDead (off, omega arith) after in (same, z)

abbrev pub unmounted_yet : FirstMount
unmounted_yet = record { already_initialized = false; calls = 0 }

-- The effect run `n` times.
abbrev pub effects : ℕ → FirstMount → FirstMount
effects zero m = m
effects (suc n) m = effect_on_first_mount (effects n m)

effects_once :
    (n : ℕ) → effects (suc n) unmounted_yet ≡ record { already_initialized = true; calls = 1 }
unfolding effect_on_first_mount
effects_once zero = refl
effects_once (suc n) = rw (effects_once n) refl

-- However often React runs the effect of `useOnFirstMount`, `fn` is called once, the first time.
pub effects_calls : (n : ℕ) → (effects (suc n) unmounted_yet).calls ≡ 1
effects_calls n = ap (λ m. m.calls) (effects_once n)
