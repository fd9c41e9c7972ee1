-- ===== src/Api/Cluster.antt =====
-- `ClusterbookCluster` (api/v1alpha1/types.go).
use clusterbook_operator.Prelude.{String, Bool, List, Option}
use clusterbook_operator.Prelude.Map.{Map}
use clusterbook_operator.Prelude.Number.{ℤ}
use clusterbook_operator.Api.Meta.{ObjectMeta, SecretKeyRef, SecretObjectRef, Condition}

-- `LBRange`
pub record LbRange : Type 0 where
  pub count : ℤ
  pub start : String
  pub stop : String

-- `ClusterbookClusterSpec`; `provider_config_ref` is the reference's name.
pub record ClusterSpec : Type 0 where
  pub network_key : String
  pub skip_reservation : Bool
  pub cluster_name : String
  pub create_dns : Bool
  pub use_fqdn_as_server : Bool
  pub server_port : ℤ
  pub server_subdomain : String
  pub preserve_kubeconfig_server : Bool
  pub kubeconfig_secret_ref : Option SecretKeyRef
  pub existing_secret_ref : Option SecretObjectRef
  pub provider_config_ref : String
  pub argocd_namespace : String
  pub labels : Map String
  pub annotations : Map String
  pub release_on_delete : Bool
  pub cluster_type : String
  pub lb_range : Option LbRange

-- `ClusterbookClusterStatus`
pub record ClusterStatus : Type 0 where
  pub ip : String
  pub fqdn : String
  pub zone : String
  pub lb_range_start : String
  pub lb_range_stop : String
  pub secret_name : String
  pub kubeconfig_hash : String
  pub cluster_ready : Bool
  pub conditions : List Condition

-- `ClusterbookCluster`
pub record Cluster : Type 0 where
  pub meta : ObjectMeta
  pub spec : ClusterSpec
  pub status : ClusterStatus
