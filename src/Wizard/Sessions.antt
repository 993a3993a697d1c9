-- ===== src/Wizard/Sessions.antt =====
-- The sessions of the wizard of web/src-web/src/views/cluster-creator/index.tsx: its events in any
-- order, each handled by the component as it was last rendered. `pending` counts the requests to
-- create a cluster that the server has not answered yet, `created` those it has agreed to. The close
-- button of the wizard unmounts the component and ends the session, so it is no event.
use makoon.Prelude.{
  ℕ, ◌+◌, ◌≤◌, ◌≡◌, refl, sym, ◌∙◌, Bool, true, false, arith, nat_eq, Bool-cases, inl, inr,
}
use makoon.World.{Wizard}
use makoon.Wizard.{
  opened, next_step, previous_step, click_next, click_previous, hide_confirmation, requested,
  provisioned,
}

pub record Session : Type 0 where
  pub wizard : Wizard
  pub pending : ℕ
  pub created : ℕ

pub data Step (s : Session) : Session → Type 0 where
  next : Step s (record s { wizard = click_next s.wizard s.wizard })
  back : Step s (record s { wizard = click_previous s.wizard s.wizard })
  -- the buttons "No" and "Yes" of the confirmation, disabled while a request is in progress
  no :
      s.wizard.show_provisioning_confirmation ≡ true
      → s.wizard.cluster_request_in_progress ≡ false
      → Step s (record s { wizard = hide_confirmation s.wizard })
  yes :
      s.wizard.show_provisioning_confirmation ≡ true
      → s.wizard.cluster_request_in_progress ≡ false
      → Step s (record s { wizard = requested s.wizard; pending = s.pending + 1 })
  -- the confirmation's own close button
  close :
      s.wizard.show_provisioning_confirmation ≡ true
      → Step s (record s { wizard = hide_confirmation s.wizard })
  agreed :
      {n : ℕ}
      → s.pending ≡ n + 1
      → Step s (record { wizard = provisioned s.wizard; pending = n; created = s.created + 1 })
  refused : {n : ℕ} → s.pending ≡ n + 1 → Step s (record s { pending = n })
  -- a step of the wizard sets `nextDisabled` or `previousDisabled`
  set_next_disabled :
      (b : Bool) → Step s (record s { wizard = record s.wizard { next_disabled = b } })
  set_previous_disabled :
      (b : Bool) → Step s (record s { wizard = record s.wizard { previous_disabled = b } })

pub data Steps (s : Session) : Session → Type 0 where
  none_left : Steps s s
  then_one : {t u : Session} → Steps s t → Step t u → Steps s u

abbrev pub started : Session
started = record { wizard = opened; pending = 0; created = 0 }

-- What holds of a wizard at every moment.
abbrev pub IsSound : Session → Type 0
IsSound s =
    (s.wizard.active_index ≤ 4)
    × (s.pending ≤ 1)
    × (s.wizard.cluster_request_in_progress ≡ false → s.pending ≡ 0)

-- A request was refused, and the wizard still waits for its answer.
abbrev pub IsStuck : Session → Type 0
IsStuck s = (s.wizard.cluster_request_in_progress ≡ true) × (s.pending ≡ 0)

click_next_index : (w : Wizard) → w.active_index ≤ 4 → (click_next w w).active_index ≤ 4
unfolding click_next next_step
click_next_index w h = ground arith

click_previous_index : (w : Wizard) → w.active_index ≤ 4 → (click_previous w w).active_index ≤ 4
unfolding click_previous previous_step
click_previous_index w h = ground arith

click_next_keeps :
    (w : Wizard)
    → ((click_next w w).cluster_request_in_progress ≡ w.cluster_request_in_progress)
      × ((click_next w w).hidden ≡ w.hidden)
unfolding click_next next_step
click_next_keeps w = ground arith

click_previous_keeps :
    (w : Wizard)
    → ((click_previous w w).cluster_request_in_progress ≡ w.cluster_request_in_progress)
      × ((click_previous w w).hidden ≡ w.hidden)
unfolding click_previous previous_step
click_previous_keeps w = ground arith

Step-IsSound : {s t : Session} → IsSound s → Step s t → IsSound t
Step-IsSound {s} (i, p, q) next =
    (click_next_index s.wizard i, p, λ e. q (sym (click_next_keeps s.wizard).0 ∙ e))
Step-IsSound {s} (i, p, q) back =
    (click_previous_index s.wizard i, p, λ e. q (sym (click_previous_keeps s.wizard).0 ∙ e))
Step-IsSound (i, p, q) (no _ _) = (i, p, q)
Step-IsSound (i, p, q) (yes _ e) = (i, (let z = q e in omega arith), λ f. ground arith)
Step-IsSound (i, p, q) (close _) = (i, p, q)
Step-IsSound (i, p, q) (agreed e) = (i, omega arith, λ _. omega arith)
Step-IsSound (i, p, q) (refused e) = (i, omega arith, λ _. omega arith)
Step-IsSound (i, p, q) (set_next_disabled b) = (i, p, q)
Step-IsSound (i, p, q) (set_previous_disabled b) = (i, p, q)

-- At every moment of a wizard's life a step of the list is shown, at most one request to create a
-- cluster is with the server, and none while the confirmation's buttons are enabled.
pub Steps-IsSound : (s : Session) → Steps started s → IsSound s
Steps-IsSound s none_left = (omega arith, omega arith, λ _. refl)
Steps-IsSound s (then_one h k) = Step-IsSound (Steps-IsSound _ h) k

-- What no event changes once a session is stuck.
abbrev pub IsLeft : Session → Session → Type 0
IsLeft s t = IsStuck t × (t.created ≡ s.created) × (t.wizard.hidden ≡ s.wizard.hidden)

Step-IsStuck : {s t : Session} → IsStuck s → Step s t → IsLeft s t
Step-IsStuck {s} (b, z) next = let (p, h) = click_next_keeps s.wizard in ((p ∙ b, z), refl, h)
Step-IsStuck {s} (b, z) back = let (p, h) = click_previous_keeps s.wizard in ((p ∙ b, z), refl, h)
Step-IsStuck (b, z) (no _ f) = absurd (ground arith)
Step-IsStuck (b, z) (yes _ f) = absurd (ground arith)
Step-IsStuck (b, z) (close _) = ((b, z), refl, refl)
Step-IsStuck (b, z) (agreed e) = absurd (omega arith)
Step-IsStuck (b, z) (refused e) = absurd (omega arith)
Step-IsStuck (b, z) (set_next_disabled _) = ((b, z), refl, refl)
Step-IsStuck (b, z) (set_previous_disabled _) = ((b, z), refl, refl)

Steps-IsStuck : {s t : Session} → IsStuck s → Steps s t → IsLeft s t
Steps-IsStuck h none_left = (h, refl, refl)
Steps-IsStuck h (then_one k e) =
    let (j, c, d) = Steps-IsStuck h k in let (j', c', d') = Step-IsStuck j e in (j', c' ∙ c, d' ∙ d)

-- The only event that takes an unanswered request away and creates no cluster is a refusal; in a sound
-- session it leaves the wizard stuck.
refusal-IsStuck :
    {s t : Session}
    → IsSound s
    → Step s t
    → t.pending + 1 ≡ s.pending
    → t.created ≡ s.created
    → IsStuck t
refusal-IsStuck h next e c = absurd (omega arith)
refusal-IsStuck h back e c = absurd (omega arith)
refusal-IsStuck h (no _ _) e c = absurd (omega arith)
refusal-IsStuck h (yes _ _) e c = absurd (omega arith)
refusal-IsStuck h (close _) e c = absurd (omega arith)
refusal-IsStuck h (agreed _) e c = absurd (omega arith)
refusal-IsStuck {s} (_, p, q) (refused k) e c =
    elim (Bool-cases s.wizard.cluster_request_in_progress) [
      | inl on ↦ (on, omega arith)
      | inr off ↦ (let z = q off in absurd (omega arith))
    ]
refusal-IsStuck h (set_next_disabled _) e c = absurd (omega arith)
refusal-IsStuck h (set_previous_disabled _) e c = absurd (omega arith)

-- Whatever has happened in a wizard since it was opened: after an event that takes an unanswered request
-- away and creates no cluster, which is a refusal by the server, no sequence of events makes the wizard
-- send another request, create a cluster or close itself; its flag of a request in progress stays on.
pub Steps-refused :
    {s t u : Session}
    → Steps started s
    → Step s t
    → t.pending + 1 ≡ s.pending
    → t.created ≡ s.created
    → Steps t u
    → (u.wizard.cluster_request_in_progress ≡ true)
      × (u.pending ≡ 0)
      × (u.created ≡ t.created)
      × (u.wizard.hidden ≡ t.wizard.hidden)
Steps-refused {s} so_far step e c after =
    let ((on, z), created, hidden) =
      Steps-IsStuck (refusal-IsStuck (Steps-IsSound s so_far) step e c) after in
    (on, z, created, hidden)
