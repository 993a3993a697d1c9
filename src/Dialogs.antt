-- ===== src/Dialogs.antt =====
-- The dialogs of web/src-web/src/views/clusters-management/components: what they show and what their
-- buttons do. Nodes has the dialogs for a node, Releases and Workloads those for a Helm app and for a
-- Kubernetes resource.
pub mod NodeDialogs
pub mod Releases
pub mod Workloads
pub mod Initials
use makoon.Prelude.{
  Bool, true, false, not, ◌||◌, ◌&&◌, Option, none, some, List, [], ◌∷◌, Text, if◌then◌else◌,
}
use makoon.Model.{ClusterStatus, sync}
use makoon.Model.Names.{cluster_status_eq, option_beq}
use makoon.World.{World, Dialog, Failure, axios_error, type_error, ClusterManagementStore}
use makoon.World.Loaders.{status}
use makoon.Async.{Async, modify}

-- What the dialogs use of the form library.
pub record FormHelpers : Type 0 where
  pub reset_form : Dialog → Dialog
  pub set_submitting : Bool → Dialog → Dialog

abbrev pub on_dialog : (Dialog → Dialog) → World → World
on_dialog f w = record w { dialog = f w.dialog }

abbrev pub in_dialog : (Dialog → Dialog) → Async (Unit {0})
in_dialog f = modify (on_dialog f)

-- `cluster.status != ClusterStatus.Sync`.
unfoldable pub is_locked_page : ClusterManagementStore → Bool
is_locked_page m = not (option_beq m.cluster.status (some sync))

-- A button of a dialog: whether it is there, and whether it is enabled.
pub record Button : Type 0 where
  pub shown : Bool
  pub enabled : Bool

-- Whether an indicator is on.
abbrev pub is_on : Text → World → Bool
is_on key w = elim (status key w.indicator) [ none ↦ false | some b ↦ b ]

-- `props.setVisible(false)` of AddNodeDialog.tsx.
abbrev pub hide : Dialog → Dialog
hide d = record d { visible = false }

-- `props.setVisible(false)` of EditNodeDialog.tsx, which is shown while a node is selected, and
-- `props.onClose` and `props.onSubmit` of apps/index.tsx and workloads/index.tsx.
abbrev pub close : Dialog → Dialog
close d = record d { visible = false; selected = none }

abbrev pub select : Text → Dialog → Dialog
select id d = record d { selected = some id }

abbrev pub set_last_error : Text → Dialog → Dialog
set_last_error e d = record d { last_error = e }

-- The text shown of an error: the data of the response where it has some that is no empty text, and
-- otherwise `String(e)`.
unfoldable pub error_shown : (Failure → Text) → Failure → Text
error_shown string_of (axios_error status (some (c ∷ text))) = c ∷ text
error_shown string_of e = string_of e
