-- ===== src/Api/Vcluster.antt =====
-- `Vcluster` (api/v1alpha1/vcluster_types.go).
use clusterbook_operator.Prelude.{String, Bool, List, Option}
use clusterbook_operator.Prelude.Map.{Map}
use clusterbook_operator.Prelude.Number.{ℤ}
use clusterbook_operator.Api.Meta.{ObjectMeta, SecretObjectRef, Condition}

-- `VclusterArgoCD`
pub record VclusterArgoCd : Type 0 where
  pub namespace : String
  pub register : Option Bool
  pub labels : Map String
  pub annotations : Map String

-- `VclusterSpec`; `chart_values` is the raw JSON.
pub record VclusterSpec : Type 0 where
  pub cluster_name : String
  pub target_cluster_ref : Option SecretObjectRef
  pub target_namespace : String
  pub chart_version : String
  pub chart_values : Option String
  pub network_key : String
  pub server_port : ℤ
  pub provider_config_ref : String
  pub argo_cd : VclusterArgoCd
  pub release_on_delete : Bool

-- `VclusterStatus`
pub record VclusterStatus : Type 0 where
  pub ip : String
  pub fqdn : String
  pub zone : String
  pub kubeconfig_secret_ref : Option SecretObjectRef
  pub argo_cd_application_ref : String
  pub clusterbook_cluster_ref : String
  pub conditions : List Condition

-- `Vcluster`
pub record Vcluster : Type 0 where
  pub meta : ObjectMeta
  pub spec : VclusterSpec
  pub status : VclusterStatus
