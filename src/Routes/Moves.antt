-- ===== src/Routes/Moves.antt =====
-- Where the login of views/login/index.tsx and the page of views/clusters-management/index.tsx go.
use makoon.Prelude.{
  ℕ, ◌≡◌, refl, arith, Bool, true, false, ◌&&◌, none, some, List, leb, Text, nat_eq, text_eq, ◌==◌,
  ==_iff, if◌then◌else◌,
}
use makoon.Model.{Cluster}
use makoon.Api.{login, get_cluster, delete_cluster}
use makoon.World.{World}
use makoon.World.Loaders.{get, put, get-remove}
use makoon.Async.{Outcome, resolved, rejected, request, gets, ◌>>=◌}
use makoon.Async.Run.{Server, run, Settles, Settles-api_call, after_call}
use makoon.Management.Actions.{cluster_name_of, is_blank, loaded, loading_cluster}
use makoon.Management.Polling.{on_management, load_project-Settles}
use makoon.Dialogs.{FormHelpers, on_dialog}
use makoon.Routes.{
  go, list_path, open_cluster, on_cluster_delete, loading_indicator_delete_cluster, FormValues,
  key_proxmox_ip, key_proxmox_username, remember, remember_all, login_request, status_or_400,
  log_in, after_login, submit_login,
}

-- The status that the form sees.
abbrev pub status_seen : Outcome ℕ → ℕ
status_seen (resolved status) = status
status_seen (rejected f) = status_or_400 f

-- The page after the cluster of the route has been asked for.
abbrev pub opened_or_listed : Outcome Cluster → World → World
opened_or_listed (resolved c) w = on_management (loaded c) w
opened_or_listed (rejected f) w = go list_path w

abbrev pub deleted : {A : Type 0} → Outcome A → World → World
deleted (resolved _) w = go list_path (on_dialog (λ d. record d { delete_confirm = false }) w)
deleted (rejected f) w = w

module _ {S : Type 0} (serve : Server S) where
  -- A submit of the login form never fails: whatever the server answers, the form acts on a status.
  pub submit_login-Settles :
      (formik : FormHelpers) (values : FormValues) (w : World) (s s' : S) (o : Outcome ℕ)
      → serve (login (login_request values)) s ≡ (o, s')
      → Settles serve
          (submit_login formik values)
          w
          s
          (resolved tt)
          (after_login formik (status_seen o) (remember_all values w))
          s'
  unfolding submit_login log_in run
  submit_login-Settles formik values w s s' (resolved status) e k = rw (run, e) refl
  submit_login-Settles formik values w s s' (rejected f) e k = rw (run, e) refl

  -- The page of a cluster opens it where the server returns it, and goes to the list of clusters,
  -- with the error stored, where the server refuses.
  pub open_cluster-Settles :
      (name : Text) (w : World) (s s' : S) (o : Outcome Cluster)
      → is_blank name ≡ false
      → serve (get_cluster name) s ≡ (o, s')
      → Settles serve
          (open_cluster (some name))
          w
          s
          (resolved tt)
          (opened_or_listed o (after_call loading_cluster o w))
          s'
  unfolding open_cluster run
  open_cluster-Settles name w s s' (resolved c) named e k =
      rw (run, named) (rw (load_project-Settles serve name w s s' (resolved c) e) refl)
  open_cluster-Settles name w s s' (rejected f) named e k =
      rw (run, named) (rw (load_project-Settles serve name w s s' (rejected f) e) refl)

  -- To destroy a cluster closes the confirmation and goes to the list of clusters where the server
  -- agrees; a refusal leaves both as they are and fails with the server's error.
  pub on_cluster_delete-Settles :
      (w : World) (s s' : S) (o : Outcome (Unit {0}))
      → serve (delete_cluster (cluster_name_of w)) s ≡ (o, s')
      → Settles serve on_cluster_delete w s o
          (deleted o (after_call loading_indicator_delete_cluster o w))
          s'
  unfolding on_cluster_delete run
  on_cluster_delete-Settles w s s' (resolved u) e k =
      rw
        (Settles-api_call serve (gets cluster_name_of >>= λ name. request (delete_cluster name))
          loading_indicator_delete_cluster w s (resolved u) s' (λ k'. rw (run, e) refl))
        refl
  on_cluster_delete-Settles w s s' (rejected f) e k =
      rw
        (Settles-api_call serve (gets cluster_name_of >>= λ name. request (delete_cluster name))
          loading_indicator_delete_cluster w s (rejected f) s' (λ k'. rw (run, e) refl))
        refl

-- The login leaves its page exactly for a status from 200 to 299, and shows the form's own error
-- afterwards exactly for the status 401, where it showed none.
pub after_login_lem :
    (formik : FormHelpers) (status : ℕ) (w : World)
    → w.login_form.login_error ≡ false
    → ((after_login formik status w).browser.location
        ≡ (if leb 200 status && leb status 299 then list_path else w.browser.location))
      × ((after_login formik status w).login_form.login_error ≡ (status == 401))
unfolding after_login
after_login_lem formik status w h = ground arith

get-remember :
    (j k v : Text) (b : Bool) (m : List (Text × Text))
    → get j (remember b k v m) ≡ (if j == k then (if b then some v else none) else get j m)
unfolding get put
get-remember j k v true m = ground (arith, get-remove k j m, ==_iff k j, ==_iff j k)
get-remember j k v false m = ground (arith, get-remove k j m, ==_iff k j, ==_iff j k)

-- After a submit the browser remembers the host and the name of the user exactly where the switch
-- of each is on, and keeps what other keys hold.
pub remember_all-get :
    (values : FormValues) (key : Text) (w : World)
    → get key (remember_all values w).browser.local_storage ≡ (
        if key == key_proxmox_username
        then (if w.login_form.remember_username then some values.username else none)
        else if key == key_proxmox_ip
        then (if w.login_form.remember_ip then some values.host else none)
        else get key w.browser.local_storage)
remember_all-get values key w = rw (
  get-remember key key_proxmox_username values.username,
  get-remember key key_proxmox_ip values.host,
)
