-- ===== src/Model/Names.antt =====
-- Equality tests and printed names of the enumerations of web/src-web/src/api/model.ts.
use makoon.Prelude.{◌≡◌, ◌↔◌, Bool, true, false, Option, none, some, arith, Text, units, Eq, ◌==◌}
use makoon.Model.{
  ClusterNodeType, master, worker, ClusterStatus, pending, creating, sync, out_of_sync, destroying,
}

abbrev pub node_type_beq : ClusterNodeType → ClusterNodeType → Bool
node_type_beq master master = true
node_type_beq worker worker = true
node_type_beq _ _ = false

pub node_type_beq_iff : (a b : ClusterNodeType) → (node_type_beq a b ≡ true) ↔ (a ≡ b)
node_type_beq_iff a b = ground arith

instance abbrev pub node_type_eq : Eq ClusterNodeType
node_type_eq = record { same = node_type_beq; same_iff = node_type_beq_iff }

-- The string that the enumeration's member stands for.
abbrev pub node_type_name : ClusterNodeType → Text
node_type_name master = units "master"
node_type_name worker = units "worker"

-- `==` where a side may be undefined.
abbrev pub option_beq {ℓ} : {A : Type ℓ} ⦃e : Eq A⦄ → Option A → Option A → Bool
option_beq none none = true
option_beq (some a) (some b) = a == b
option_beq _ _ = false

abbrev pub cluster_status_beq : ClusterStatus → ClusterStatus → Bool
cluster_status_beq pending pending = true
cluster_status_beq creating creating = true
cluster_status_beq sync sync = true
cluster_status_beq out_of_sync out_of_sync = true
cluster_status_beq destroying destroying = true
cluster_status_beq ClusterStatus.error ClusterStatus.error = true
cluster_status_beq _ _ = false

pub cluster_status_beq_iff : (a b : ClusterStatus) → (cluster_status_beq a b ≡ true) ↔ (a ≡ b)
cluster_status_beq_iff a b = ground arith

instance abbrev pub cluster_status_eq : Eq ClusterStatus
cluster_status_eq = record { same = cluster_status_beq; same_iff = cluster_status_beq_iff }
