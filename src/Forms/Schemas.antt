-- ===== src/Forms/Schemas.antt =====
-- The schemas that the forms of web/src-web/src/views are checked with.
use makoon.Prelude.{
  Bool, true, false, none, some, List, [], ◌∷◌, ◌++◌, String, Text, units, text_eq, ◌==◌,
}
use makoon.Js.Array.{find}
use makoon.Model.{ClusterHeader}
use makoon.Patterns.{hostname_main, hostname_start, hostname_end}
use makoon.World.{ClustersListStore}
use makoon.Forms.{
  Rule, required, strict, trims, positive, min, max, matches, passes, string, number, FieldSchema,
  says,
}

-- `matches` with the three patterns of utils/patterns.ts.
abbrev pub name_rules : List (Rule × Text)
name_rules =
    says (matches hostname_start) "Name can start with characters: a-z, A-Z, 0-9"
    ∷ says (matches hostname_main) "Name can contain characters: a-z, A-Z, 0-9, -"
    ∷ says (matches hostname_end) "Name can end with characters: a-z, A-Z, 0-9"
    ∷ []

-- `schemaAddNode` of CreatorNodeDialog.tsx, which AddNodeDialog.tsx and EditNodeDialog.tsx use too.
abbrev pub schema_add_node : List FieldSchema
schema_add_node =
    record {
      name = units "name";
      kind = string;
      rules =
          says required "Node name is required"
          ∷ says strict ""
          ∷ says trims ""
          ∷ says (max 128) "Name length must be at most 128 characters"
          ∷ name_rules;
    }
    ∷ record {
      name = units "vmId";
      kind = number;
      rules =
          says (min 100) "VM id must be greater than or equal to 100"
          ∷ says (max 4294967296) "VM id must be lower or equal to 4 294 967 296"
          ∷ says required "VM id is required"
          ∷ [];
    }
    ∷ record {
      name = units "cores";
      kind = number;
      rules =
          says (min 1) "At least one core is required"
          ∷ says (max 4096) "You can allocate maximum 4096 cores"
          ∷ says required "Cores are required"
          ∷ [];
    }
    ∷ record {
      name = units "memory";
      kind = number;
      rules =
          says positive "Memory size has to be at least 1 MiB"
          ∷ says required "Memory size is required"
          ∷ [];
    }
    ∷ record {
      name = units "ipAddress";
      kind = string;
      rules =
          says (min 7) "IP address has to have at least 7 characters"
          ∷ says required "IP address is required"
          ∷ [];
    }
    ∷ record {
      name = units "storagePool";
      kind = string;
      rules = says required "Storage pool is required" ∷ [];
    }
    ∷ []

-- A text that is required and has no blanks around it.
abbrev strictly_required : String → List (Rule × Text)
strictly_required message = says required message ∷ says strict "" ∷ says trims "" ∷ []

-- The function of the test "is-name-available" of cluster/index.tsx.
unfoldable pub is_name_available : ClustersListStore → Text → Bool
is_name_available s val = elim (find (λ (e : ClusterHeader). e.name == val) s.clusters) [
  | none ↦ true
  | some _ ↦ false
]

-- `schema` of cluster/index.tsx, for the list of clusters that the page holds.
abbrev pub cluster_schema : ClustersListStore → List FieldSchema
cluster_schema clusters =
    record {
      name = units "clusterName";
      kind = string;
      rules =
          says required "Cluster name is required"
          ∷ says strict ""
          ∷ says trims ""
          ∷ says (max 128) ""
          ∷ (name_rules
              ++ says (passes (is_name_available clusters)) "Cluster name is already used" ∷ []);
    }
    ∷ record {
      name = units "nodeUsername";
      kind = string;
      rules = strictly_required "Username is required";
    }
    ∷ record {
      name = units "nodePassword";
      kind = string;
      rules = strictly_required "Password is required";
    }
    ∷ record {
      name = units "diskSize";
      kind = number;
      rules = says required "Disk size is required" ∷ [];
    }
    ∷ record {
      name = units "network.bridge";
      kind = string;
      rules = says required "Bridge is required" ∷ [];
    }
    ∷ record {
      name = units "network.subnetMask";
      kind = number;
      rules = says required "Subnet mask is required" ∷ [];
    }
    ∷ record {
      name = units "network.gateway";
      kind = string;
      rules = strictly_required "Gateway address is required";
    }
    ∷ record {
      name = units "network.dns";
      kind = string;
      rules = strictly_required "DNS address is required";
    }
    ∷ []

-- `schema` of settings/index.tsx.
abbrev pub settings_schema : List FieldSchema
settings_schema =
    record {
      name = units "node";
      kind = string;
      rules = strictly_required "Proxmox node is required";
    }
    ∷ record {
      name = units "osImage";
      kind = string;
      rules = strictly_required "OS image is required";
    }
    ∷ record {
      name = units "osImageStorage";
      kind = string;
      rules = strictly_required "Storage for OS image is required";
    }
    ∷ record {
      name = units "kubeVersion";
      kind = string;
      rules = strictly_required "MicroK8S version is required";
    }
    ∷ []

-- `schemaAddHelmApp` of CreatorHelmAppDialog.tsx, which HelmAppDialog.tsx uses too.
abbrev pub schema_add_helm_app : List FieldSchema
schema_add_helm_app =
    record {
      name = units "releaseName";
      kind = string;
      rules = says required "Release name is required" ∷ says trims "" ∷ [];
    }
    ∷ record {
      name = units "chartName";
      kind = string;
      rules = says required "Chart name is required" ∷ says trims "" ∷ [];
    }
    ∷ record { name = units "chartVersion"; kind = string; rules = says trims "" ∷ [] }
    ∷ record { name = units "repository"; kind = string; rules = says trims "" ∷ [] }
    ∷ record {
      name = units "namespace";
      kind = string;
      rules = says required "Namespace is required" ∷ says trims "" ∷ [];
    }
    ∷ record { name = units "values"; kind = string; rules = [] }
    ∷ []

-- `schemaAddWorkload` of CreatorWorkloadsDialog.tsx, which WorkloadsDialog.tsx uses too.
abbrev pub schema_add_workload : List FieldSchema
schema_add_workload =
    record {
      name = units "name";
      kind = string;
      rules = strictly_required "Workload name is required";
    }
    ∷ record {
      name = units "content";
      kind = string;
      rules = strictly_required "Workload content is required";
    }
    ∷ []

-- `schema` of login/index.tsx.
abbrev pub login_schema : List FieldSchema
login_schema =
    record { name = units "host"; kind = string; rules = says required "Host is required" ∷ [] }
    ∷ record {
      name = units "username";
      kind = string;
      rules = says required "Username is required" ∷ [];
    }
    ∷ record {
      name = units "password";
      kind = string;
      rules = says required "Password is required" ∷ [];
    }
    ∷ []
