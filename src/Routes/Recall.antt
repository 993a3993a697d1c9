-- ===== src/Routes/Recall.antt =====
-- What the login form of views/login/index.tsx takes out of the browser when it is first shown.
use makoon.Prelude.{
  ◌≡◌, refl, Bool, true, false, Option, none, some, [], Text, units, text_eq, if◌then◌else◌,
}
use makoon.World.{World, Browser, LoginForm}
use makoon.World.Loaders.{get}
use makoon.Management.Actions.{is_blank}
use makoon.Routes.{FormValues, key_proxmox_ip, key_proxmox_username, remember_all}
use makoon.Routes.Moves.{remember_all-get}

-- `initialValues` and the initial states of the component.
abbrev pub initial_values : FormValues
initial_values = record { host = []; username = []; password = [] }

abbrev pub initial_login : LoginForm
initial_login = record { login_error = false; remember_ip = false; remember_username = false }

-- `formik.setFieldValue(name, value)`.
abbrev pub SetFieldValue : Type 0
SetFieldValue = Text → Text → FormValues → FormValues

-- A remembered value turns its switch on and fills its field.
abbrev recalled :
    Option Text
    → (Text → LoginForm × FormValues → LoginForm × FormValues)
    → LoginForm × FormValues
    → LoginForm × FormValues
recalled none f x = x
recalled (some t) f x = if is_blank t then x else f t x

abbrev recall_ip : SetFieldValue → Text → LoginForm × FormValues → LoginForm × FormValues
recall_ip set_field_value t (form, values) =
    (record form { remember_ip = true }, set_field_value (units "host") t values)

abbrev recall_username : SetFieldValue → Text → LoginForm × FormValues → LoginForm × FormValues
recall_username set_field_value t (form, values) =
    (record form { remember_username = true }, set_field_value (units "username") t values)

-- The function that the form gives to `useOnFirstMount`.
unfoldable pub recall : SetFieldValue → Browser → LoginForm × FormValues → LoginForm × FormValues
recall set_field_value b x =
    recalled (get key_proxmox_username b.local_storage) (recall_username set_field_value)
      (recalled (get key_proxmox_ip b.local_storage) (recall_ip set_field_value) x)

-- The same of what two switches have let the browser remember.
abbrev kept : Bool → Text → Option Text
kept b t = if b then some t else none

recall_kept :
    (set_field_value : SetFieldValue) (values : FormValues) (b c : Bool)
    → ((t : Text) (v : FormValues) → set_field_value (units "host") t v ≡ record v { host = t })
    → ((t : Text) (v : FormValues)
        → set_field_value (units "username") t v ≡ record v { username = t })
    → is_blank values.host ≡ false
    → is_blank values.username ≡ false
    → recalled
        (kept c values.username)
        (recall_username set_field_value)
        (recalled (kept b values.host) (recall_ip set_field_value) (initial_login, initial_values))
      ≡ (
        record { login_error = false; remember_ip = b; remember_username = c },
        record {
          host = if b then values.host else [];
          username = if c then values.username else [];
          password = [];
        },
      )
recall_kept set_field_value values true true sets_host sets_name host name =
    rw (host, name, sets_host, sets_name)
recall_kept set_field_value values true false sets_host sets_name host name = rw (host, sets_host)
recall_kept set_field_value values false true sets_host sets_name host name = rw (name, sets_name)
recall_kept set_field_value values false false sets_host sets_name host name = refl

-- A form that is shown after a submit has the switches of that submit, its host and user name where
-- their switches were on, and no password. The host and the name are not empty, which the schema of the
-- form asks, and the form library sets the field that it is told to.
pub recall-remember_all :
    (set_field_value : SetFieldValue) (values : FormValues) (w : World)
    → ((t : Text) (v : FormValues) → set_field_value (units "host") t v ≡ record v { host = t })
    → ((t : Text) (v : FormValues)
        → set_field_value (units "username") t v ≡ record v { username = t })
    → is_blank values.host ≡ false
    → is_blank values.username ≡ false
    → recall set_field_value (remember_all values w).browser (initial_login, initial_values) ≡ (
      record {
        login_error = false;
        remember_ip = w.login_form.remember_ip;
        remember_username = w.login_form.remember_username;
      },
      record {
        host = if w.login_form.remember_ip then values.host else [];
        username = if w.login_form.remember_username then values.username else [];
        password = [];
      },
    )
unfolding recall
recall-remember_all set_field_value values w sets_host sets_name host name =
    let form = w.login_form in
    rw
      (
        recall,
        remember_all-get values key_proxmox_username w,
        remember_all-get values key_proxmox_ip w,
      )
      (recall_kept set_field_value values form.remember_ip form.remember_username sets_host
        sets_name host name)
