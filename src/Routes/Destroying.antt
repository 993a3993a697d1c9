-- ===== src/Routes/Destroying.antt =====
-- The confirmation "Are you sure?" of web/src-web/src/views/clusters-management/index.tsx, which
-- destroys the open cluster: its events in any order.
use makoon.Prelude.{
  ℕ, ◌+◌, ◌≡◌, ◌∙◌, sym, refl, ap, arith, Bool, true, false, not, Option, none, some, List, [], ◌∷◌,
  All, Text, text_eq, nat_eq, ==_iff, if◌then◌else◌, Bool-cases, inl, inr,
}
use makoon.World.{World}
use makoon.World.Loaders.{
  get, put, get-remove, status, start_processing, stop_processing, stop-start_processing,
}
use makoon.Async.{Outcome, resolved, rejected}
use makoon.Async.Call.{start, stop, fail}
use makoon.Async.Run.{after_call}
use makoon.Management.Actions.{cluster_name_of}
use makoon.Dialogs.{is_on, on_dialog}
use makoon.Routes.{locked, delete_footer, loading_indicator_delete_cluster}
use makoon.Routes.Moves.{deleted}

pub record ClusterPage : Type 0 where
  pub world : World
  -- `clusterNameToConfirmDelete`
  pub typed : Text
  -- the requests that the server has not answered, and of all requests what was typed and the name
  -- of the cluster to delete
  pub pending : ℕ
  pub sent : List (Text × Text)

abbrev pub deletion_in_progress : World → Bool
deletion_in_progress w = is_on loading_indicator_delete_cluster w

-- `setShowDeleteCluster`.
abbrev pub set_shown : Bool → World → World
set_shown b w = on_dialog (λ d. record d { delete_confirm = b }) w

-- `onHide` of the confirmation.
unfoldable pub on_hide : World → World
on_hide w = if not (deletion_in_progress w) then set_shown false w else w

-- What the answer to the request of `onClusterDelete` does.
abbrev pub answered : Outcome (Unit {0}) → World → World
answered (resolved u) w = deleted (resolved u) (stop loading_indicator_delete_cluster w)
answered (rejected e) w = stop loading_indicator_delete_cluster (fail e w)

pub data Step (p : ClusterPage) : ClusterPage → Type 0 where
  destroy : locked p.world ≡ false → Step p (record p { world = set_shown true p.world })
  -- the input is there while no deletion is in progress
  types :
      (t : Text)
      → p.world.dialog.delete_confirm ≡ true
      → deletion_in_progress p.world ≡ false
      → Step p (record p { typed = t })
  no :
      p.world.dialog.delete_confirm ≡ true
      → (delete_footer p.typed p.world).0.enabled ≡ true
      → Step p (record p { world = set_shown false p.world })
  yes :
      p.world.dialog.delete_confirm ≡ true
      → (delete_footer p.typed p.world).1.enabled ≡ true
      → Step p (record p {
        world = start loading_indicator_delete_cluster p.world;
        pending = p.pending + 1;
        sent = (p.typed, cluster_name_of p.world) ∷ p.sent;
      })
  hides : p.world.dialog.delete_confirm ≡ true → Step p (record p { world = on_hide p.world })
  answers :
      {n : ℕ} (o : Outcome (Unit {0}))
      → p.pending ≡ n + 1
      → Step p (record p { world = answered o p.world; pending = n })
  -- whatever else happens on the page, which neither shows nor hides the confirmation
  elsewhere :
      (w : World)
      → deletion_in_progress w ≡ deletion_in_progress p.world
      → w.dialog.delete_confirm ≡ p.world.dialog.delete_confirm
      → Step p (record p { world = w })

pub data Steps (p : ClusterPage) : ClusterPage → Type 0 where
  none_left : Steps p p
  then_one : {q r : ClusterPage} → Steps p q → Step q r → Steps p r

-- What holds of the page at every moment.
abbrev pub IsConfirmed : ClusterPage → Type 0
IsConfirmed p =
    (p.pending ≡ (if deletion_in_progress p.world then 1 else 0))
    × (deletion_in_progress p.world ≡ true → p.world.dialog.delete_confirm ≡ true)
    × All (λ (r : Text × Text). r.0 ≡ r.1) p.sent

-- A page as it is first rendered.
abbrev pub IsFirst : ClusterPage → Type 0
IsFirst p = (deletion_in_progress p.world ≡ false) × (p.pending ≡ 0) × (p.sent ≡ [])

in_progress-start :
    (w : World) → deletion_in_progress (start loading_indicator_delete_cluster w) ≡ true
unfolding status start_processing put get
in_progress-start w = refl

in_progress-stop :
    (w : World) → deletion_in_progress (stop loading_indicator_delete_cluster w) ≡ false
unfolding status stop_processing
in_progress-stop w =
    ap (λ (o : Option Bool). elim o [ none ↦ false | some b ↦ b ])
      (get-remove loading_indicator_delete_cluster loading_indicator_delete_cluster
        w.indicator.loaders)

in_progress-answered :
    (o : Outcome (Unit {0})) (w : World) → deletion_in_progress (answered o w) ≡ false
in_progress-answered (resolved u) w = in_progress-stop w
in_progress-answered (rejected e) w = in_progress-stop (fail e w)

-- An answer leaves the page as a run of `onClusterDelete` does.
answered-start :
    (o : Outcome (Unit {0})) (w : World)
    → answered o (start loading_indicator_delete_cluster w)
      ≡ deleted o (after_call loading_indicator_delete_cluster o w)
answered-start (resolved u) w =
    ap (λ i. deleted (resolved u) (record w { indicator = i }))
      (stop-start_processing loading_indicator_delete_cluster w.indicator)
answered-start (rejected e) w =
    ap (λ i. fail e (record w { indicator = i }))
      (stop-start_processing loading_indicator_delete_cluster w.indicator)

Step-IsConfirmed : {p q : ClusterPage} → IsConfirmed p → Step p q → IsConfirmed q
unfolding delete_footer on_hide
Step-IsConfirmed (n, s, a) (destroy _) = (n, λ _. refl, a)
Step-IsConfirmed (n, s, a) (types t _ _) = (n, s, a)
Step-IsConfirmed (n, s, a) (no _ e) = (n, λ f. ground arith, a)
Step-IsConfirmed {p} (n, s, a) (yes c e) = (
  rw (in_progress-start p.world) (ground arith),
  λ _. c,
  ((==_iff p.typed (cluster_name_of p.world)).0 (ground arith), a),
)
Step-IsConfirmed {p} (n, s, a) (hides _) = elim (Bool-cases (deletion_in_progress p.world)) [
  | inl e ↦ rw e (ground arith, λ f. ground arith, a)
  | inr e ↦ rw e (ground arith, λ f. ground arith, a)
]
Step-IsConfirmed {p} (n, s, a) (answers o e) = (
  rw (in_progress-answered o p.world) (ground arith),
  λ f. absurd (ground (arith, in_progress-answered o p.world)),
  a,
)
Step-IsConfirmed (n, s, a) (elsewhere w e f) = (rw e n, λ g. f ∙ s (sym e ∙ g), a)

-- While the page of a cluster is open, at most one request to delete the cluster is unanswered, and one
-- is exactly while the indicator of the deletion is on; until then the confirmation stays on the screen,
-- whatever is clicked. Each request was sent for a cluster whose name had been typed.
pub Steps-IsConfirmed : {p q : ClusterPage} → IsFirst p → Steps p q → IsConfirmed q
Steps-IsConfirmed (off, z, e) none_left = (rw off z, λ f. absurd (ground arith), rw e tt)
Steps-IsConfirmed h (then_one k e) = Step-IsConfirmed (Steps-IsConfirmed h k) e
