-- ===== src/Displays.antt =====
-- What web/src-web/src shows of a status, of an error and of a size: HelmAppStatus.tsx,
-- VmStatusInfo.tsx, KubeStatusInfo.tsx, LogLevel.tsx, ClusterStatus.tsx, ErrorPanel.tsx and
-- utils/size.ts.
pub mod Sizes
use makoon.Prelude.{ℕ, Bool, Option, none, some, List, [], ◌∷◌, Text, units, if◌then◌else◌}
use makoon.Model.{
  ActionLogLevel, ClusterStatus, KubeStatus, AppStatusType, VmStatus, pending, creating, sync,
  out_of_sync, destroying, info, running, stopped, ready, not_ready, deployed, uninstalled,
  superseded, failed, uninstalling, pending_install, pending_upgrade, pending_rollback,
  not_installed,
}
use makoon.World.{World, ErrorValue}
use makoon.World.Loaders.{is_error, clear_error}

pub data Severity : Type 0 where
  success warning danger information unavailable : Severity

-- A tag or an icon, with its text or title. `none` is the spinner of a status that is not known yet.
pub record Sign : Type 0 where
  pub severity : Severity
  pub title : Text

abbrev sign : Severity → Text → Option Sign
sign s t = some (record { severity = s; title = t })

unfoldable pub helm_app_status : Option AppStatusType → Option Sign
helm_app_status none = none
helm_app_status (some AppStatusType.unknown) = sign danger (units "Unknown")
helm_app_status (some deployed) = sign success (units "Deployed")
helm_app_status (some uninstalled) = sign warning (units "Uninstalled")
helm_app_status (some superseded) = sign warning (units "Superseded")
helm_app_status (some failed) = sign danger (units "Failed")
helm_app_status (some uninstalling) = sign warning (units "Uninstalling")
helm_app_status (some pending_install) = sign warning (units "Pending install")
helm_app_status (some pending_upgrade) = sign warning (units "Pending upgrade")
helm_app_status (some pending_rollback) = sign warning (units "Pending rollback")
helm_app_status (some not_installed) = sign information (units "Not installed")

unfoldable pub vm_status_info : Option VmStatus → Option Sign
vm_status_info none = none
vm_status_info (some running) = sign success (units "VM is runnig")
vm_status_info (some stopped) = sign danger (units "VM is stopped")

unfoldable pub kube_status_info : Option KubeStatus → Bool → Option Sign
kube_status_info none vm_status_problem = none
kube_status_info (some ready) vm_status_problem =
    sign (if vm_status_problem then warning else success) (units "Ready")
kube_status_info (some KubeStatus.unknown) vm_status_problem = sign unavailable (units "Unknown")
kube_status_info (some not_ready) vm_status_problem = sign danger (units "Not ready")

unfoldable pub cluster_status : ClusterStatus → Sign
cluster_status pending = record { severity = unavailable; title = units "Pending" }
cluster_status creating = record { severity = warning; title = units "Creating" }
cluster_status sync = record { severity = success; title = units "Sync" }
cluster_status out_of_sync = record { severity = unavailable; title = units "Out of sync" }
cluster_status destroying = record { severity = warning; title = units "Destroying" }
cluster_status ClusterStatus.error = record { severity = danger; title = units "Error" }

unfoldable pub log_level : ActionLogLevel → Sign
log_level info = record { severity = information; title = units "Info" }
log_level ActionLogLevel.error = record { severity = danger; title = units "Error" }

-- What the panel for errors shows, if it is there, and its button "Close".
unfoldable pub error_panel : World → Option ErrorValue
error_panel w = if is_error w.application then some w.application.error else none

abbrev pub close_error_panel : World → World
close_error_panel w = record w { application = clear_error w.application }
