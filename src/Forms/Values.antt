-- ===== src/Forms/Values.antt =====
-- The values of the forms under the names that the schemas use.
use makoon.Prelude.{Option, none, some, List, [], ◌∷◌, Text, units, text_eq, ◌==◌, if◌then◌else◌}
use makoon.Prelude.Int.{pos}
use makoon.Model.{HelmApp, ClusterResource}
use makoon.Creator.{SettingsModel, ClusterSettingsModel}
use makoon.Dialogs.NodeDialogs.{NodeFormModel}
use makoon.Routes.{FormValues}
use makoon.Forms.{FieldValue, undefined, text, numeric}

abbrev pub field : List (Text × FieldValue) → Text → FieldValue
field [] name = undefined
field ((n, v) ∷ vs) name = if n == name then v else field vs name

abbrev pub optional : Option Text → FieldValue
optional none = undefined
optional (some t) = text t

abbrev pub node_values : NodeFormModel → Text → FieldValue
node_values v = field (
    (units "name", text v.name)
    ∷ (units "vmId", numeric v.vm_id)
    ∷ (units "cores", numeric (pos v.cores))
    ∷ (units "memory", numeric (pos v.memory))
    ∷ (units "ipAddress", text v.ip_address)
    ∷ (units "storagePool", text v.storage_pool)
    ∷ [])

abbrev pub cluster_values : ClusterSettingsModel → Text → FieldValue
cluster_values v = field (
    (units "clusterName", text v.cluster_name)
    ∷ (units "nodeUsername", text v.node_username)
    ∷ (units "nodePassword", text v.node_password)
    ∷ (units "diskSize", numeric (pos v.disk_size))
    ∷ (units "network.bridge", text v.network.bridge)
    ∷ (units "network.subnetMask", numeric (pos v.network.subnet_mask))
    ∷ (units "network.gateway", text v.network.gateway)
    ∷ (units "network.dns", text v.network.dns)
    ∷ [])

abbrev pub settings_values : SettingsModel → Text → FieldValue
settings_values v = field (
    (units "node", text v.node)
    ∷ (units "osImage", text v.os_image)
    ∷ (units "osImageStorage", text v.os_image_storage)
    ∷ (units "kubeVersion", text v.kube_version)
    ∷ [])

abbrev pub helm_app_values : HelmApp → Text → FieldValue
helm_app_values v = field (
    (units "releaseName", text v.release_name)
    ∷ (units "chartName", text v.chart_name)
    ∷ (units "chartVersion", optional v.chart_version)
    ∷ (units "repository", text v.repository)
    ∷ (units "namespace", text v.namespace)
    ∷ (units "values", optional v.values)
    ∷ [])

abbrev pub workload_values : ClusterResource → Text → FieldValue
workload_values v = field ((units "name", text v.name) ∷ (units "content", text v.content) ∷ [])

abbrev pub login_values : FormValues → Text → FieldValue
login_values v = field (
    (units "host", text v.host)
    ∷ (units "username", text v.username)
    ∷ (units "password", text v.password)
    ∷ [])
