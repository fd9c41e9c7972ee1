-- ===== src/Api/Allocation.antt =====
-- `ClusterbookAllocation` (api/v1alpha1/clusterbookallocation_types.go).
use clusterbook_operator.Prelude.{String, Bool, List, Option}
use clusterbook_operator.Api.Meta.{ObjectMeta, SecretObjectRef, Condition, ObjectName}

-- `ConfigMapSink`
pub record ConfigMapSink : Type 0 where
  pub name : String
  pub namespace : String

abbrev pub sink_name : ConfigMapSink → ObjectName
sink_name r = record { namespace = r.namespace; name = r.name }

-- `AllocationSinks`
pub record AllocationSinks : Type 0 where
  pub config_map : Option ConfigMapSink
  pub cluster_secret_labels : Option SecretObjectRef

-- `ClusterbookAllocationSpec`
pub record AllocationSpec : Type 0 where
  pub network_key : String
  pub name : String
  pub create_dns : Bool
  pub provider_config_ref : String
  pub sinks : AllocationSinks
  pub release_on_delete : Bool

-- `ClusterbookAllocationStatus`
pub record AllocationStatus : Type 0 where
  pub ip : String
  pub fqdn : String
  pub zone : String
  pub config_map_ref : Option ConfigMapSink
  pub cluster_secret_ref : Option SecretObjectRef
  pub conditions : List Condition

-- `ClusterbookAllocation`
pub record Allocation : Type 0 where
  pub meta : ObjectMeta
  pub spec : AllocationSpec
  pub status : AllocationStatus
