-- ===== src/Api/LoadBalancer.antt =====
-- `ClusterbookLoadBalancer` (api/v1alpha1/clusterbookloadbalancer_types.go) and the
-- `CiliumLoadBalancerIPPool` that the operator writes for it.
use clusterbook_operator.Prelude.{String, Bool, List, Option}
use clusterbook_operator.Prelude.Map.{Map}
use clusterbook_operator.Api.Meta.{ObjectMeta, Condition, ObjectName}

-- `ServiceObjectRef`
pub record ServiceObjectRef : Type 0 where
  pub name : String
  pub namespace : String

abbrev pub service_name : ServiceObjectRef → ObjectName
service_name r = record { namespace = r.namespace; name = r.name }

-- `metav1.LabelSelectorRequirement`
pub record SelectorRequirement : Type 0 where
  pub key : String
  pub operator : String
  pub values : List String

-- `metav1.LabelSelector`
pub record LabelSelector : Type 0 where
  pub match_labels : Map String
  pub match_expressions : List SelectorRequirement

-- `CiliumPoolTarget`
pub record CiliumPoolTarget : Type 0 where
  pub pool_name : String
  pub namespace : String
  pub service_selector : Option LabelSelector

-- `ClusterbookLoadBalancerSpec`
pub record LoadBalancerSpec : Type 0 where
  pub network_key : String
  pub name : String
  pub create_dns : Bool
  pub provider_config_ref : String
  pub cilium_pool : Option CiliumPoolTarget
  pub service_ref : Option ServiceObjectRef
  pub release_on_delete : Bool

-- `ClusterbookLoadBalancerStatus`
pub record LoadBalancerStatus : Type 0 where
  pub ip : String
  pub fqdn : String
  pub zone : String
  pub pool_name : String
  pub target_service_ref : Option ServiceObjectRef
  pub conditions : List Condition

-- `ClusterbookLoadBalancer`
pub record LoadBalancer : Type 0 where
  pub meta : ObjectMeta
  pub spec : LoadBalancerSpec
  pub status : LoadBalancerStatus
