-- ===== src/Routes.antt =====
-- The pages that move the browser: web/src-web/src/Router.tsx, views/login/index.tsx and
-- views/clusters-management/index.tsx.
pub mod Moves
pub mod Recall
pub mod Paths
pub mod Destroying
pub mod Menus
use makoon.Prelude.{
  ℕ, Bool, true, false, not, ◌||◌, ◌&&◌, Option, none, some, List, [], ◌∷◌, ◌++◌, leb, Text, units,
  nat_eq, text_eq, ◌==◌, if◌then◌else◌,
}
use makoon.Model.{LoginRequest, ClusterStatus, sync, error}
use makoon.Model.Names.{cluster_status_eq, option_beq}
use makoon.Api.{login, logout, delete_cluster}
use makoon.Js.Number.{digits}
use makoon.World.{World, Browser, LoginForm, Dialog, Failure, axios_error, type_error, message}
use makoon.World.Loaders.{get, put, remove, throw_error}
use makoon.Async.{Async, Outcome, pure, try_catch, gets, modify, request, ◌>>=◌, ◌>>◌}
use makoon.Async.Call.{api_call}
use makoon.Management.Actions.{cluster_name_of, is_blank, load_project}
use makoon.Dialogs.{Button, is_on, FormHelpers, in_dialog}

abbrev pub go : Text → World → World
go path w = record w { browser = record w.browser { location = path } }

abbrev pub navigate : Text → Async (Unit {0})
navigate path = modify (go path)

abbrev pub list_path : Text
list_path = units "/list"

abbrev pub login_path : Text
login_path = units "/login"

-- Whether the text occurs in another: `indexOf` is not -1.
abbrev starts_with : Text → Text → Bool
starts_with [] s = true
starts_with (c ∷ t) [] = false
starts_with (c ∷ t) (d ∷ s) = c == d && starts_with t s

unfoldable pub occurs : Text → Text → Bool
occurs t [] = starts_with t []
occurs t (d ∷ s) = let rest = occurs t s in starts_with t (d ∷ s) || rest

-- `Guard` of Router.tsx: the page that is shown for a cookie, or the login.
unfoldable pub guard : {A : Type 0} → Text → A → A → A
unfolding occurs
guard cookie children to_login = if occurs (units "id=") cookie then children else to_login

-- `locked` of views/clusters-management/index.tsx, which disables the button "Destroy".
unfoldable pub locked : World → Bool
locked w =
    not (option_beq w.management.cluster.status (some sync))
    && not (option_beq w.management.cluster.status (some ClusterStatus.error))

abbrev pub loading_indicator_delete_cluster : Text
loading_indicator_delete_cluster = units "DELETE_CLUSTER"

-- What the page does first. `cluster_name` is the parameter of the route.
unfoldable pub open_cluster : Option Text → Async (Unit {0})
open_cluster none = navigate list_path
open_cluster (some cluster_name) =
    if is_blank cluster_name
    then navigate list_path
    else try_catch (load_project cluster_name) (λ _. navigate list_path)

unfoldable pub on_cluster_delete : Async (Unit {0})
on_cluster_delete = do
  api_call (do name ← gets cluster_name_of; request (delete_cluster name))
      loading_indicator_delete_cluster
  in_dialog (λ d. record d { delete_confirm = false })
  navigate list_path

-- The buttons "No" and "Yes" of the confirmation, where `typed` is the name that has been entered.
unfoldable pub delete_footer : Text → World → Button × Button
delete_footer typed w =
    let deletion_in_progress = is_on loading_indicator_delete_cluster w in
    (
      record { shown = true; enabled = not deletion_in_progress },
      record {
        shown = true;
        enabled = not (not (typed == cluster_name_of w) || deletion_in_progress);
      },
    )

-- `onLogoutHandler` of components/Header.tsx.
unfoldable pub on_logout : Text → Async (Unit {0})
on_logout key = do api_call (request logout) key; navigate login_path

-- `goToClusterManagement` of views/cluster-list/components/ClusterListPanel.tsx.
abbrev pub go_to_cluster_management : Text → Async (Unit {0})
go_to_cluster_management cluster_name = navigate (units "/cluster/" ++ cluster_name)

-- views/login/index.tsx
pub record FormValues : Type 0 where
  pub host : Text
  pub username : Text
  pub password : Text

abbrev pub key_proxmox_ip : Text
key_proxmox_ip = units "PROXMOX_IP"

abbrev pub key_proxmox_username : Text
key_proxmox_username = units "PROXMOX_USERNAME"

-- `localStorage.setItem` or `removeItem`.
abbrev pub remember : Bool → Text → Text → List (Text × Text) → List (Text × Text)
remember b key value storage = if b then put key value storage else remove key storage

abbrev pub remember_all : FormValues → World → World
remember_all values w = record w {
  browser = record w.browser {
    local_storage =
        remember w.login_form.remember_username key_proxmox_username values.username
          (remember w.login_form.remember_ip key_proxmox_ip values.host w.browser.local_storage);
  };
}

abbrev pub login_request : FormValues → LoginRequest
login_request values = record {
  host = values.host;
  port = 8006;
  username = values.username;
  password = values.password;
}

-- `login` of api/auth.ts: an answer with an error has the status of its response, or 400.
abbrev pub status_or_400 : Failure → ℕ
status_or_400 (axios_error (some status) text) = status
status_or_400 _ = 400

unfoldable pub log_in : LoginRequest → Async ℕ
log_in req = try_catch (request (login req)) (λ e. pure (status_or_400 e))

abbrev set_login_error : Bool → World → World
set_login_error b w = record w { login_form = record w.login_form { login_error = b } }

-- What the form does with a status.
unfoldable pub after_login : FormHelpers → ℕ → World → World
after_login formik status w =
    let submitted = λ (v : World). record v { dialog = formik.set_submitting false v.dialog } in
    if leb 200 status && leb status 299
    then go list_path (submitted (set_login_error false w))
    else if status == 401
    then submitted (set_login_error true w)
    else submitted (record w {
      application = throw_error (message (units "Unknown error: " ++ digits status)) w.application;
    })

-- `onSubmit`.
unfoldable pub submit_login : FormHelpers → FormValues → Async (Unit {0})
unfolding log_in after_login
submit_login formik values = do
  modify (remember_all values)
  status ← log_in (login_request values)
  modify (after_login formik status)
