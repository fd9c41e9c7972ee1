-- ===== src/World/Data.antt =====
-- The data that cross the operator's boundary: kinds of objects, kubeconfigs, ArgoCD's connection
-- settings (controller/reconciler.go), and the wire types of pkg/client/client.go.
use clusterbook_operator.Prelude.{
  String, Bool, true, false, ℕ, List, [], ◌∷◌, Option, none, some, ◌==◌, if◌then◌else◌,
}
use clusterbook_operator.Prelude.Map.{Map}
use clusterbook_operator.Prelude.Number.{ℤ}
use clusterbook_operator.Api.Meta.{Secret, ConfigMap, Service, ProviderConfig, ObjectMeta}
use clusterbook_operator.Api.Cluster.{Cluster}
use clusterbook_operator.Api.LoadBalancer.{LoadBalancer}
use clusterbook_operator.Api.Allocation.{Allocation}
use clusterbook_operator.Api.Vcluster.{Vcluster}

-- An unstructured object's tree, `map[string]interface{}`: a text, a truth value, a list, a map.
mutual
  pub data Value : Type 0 where
    text : String → Value
    truth : Bool → Value
    array : Items → Value
    object : Fields → Value

  pub data Items : Type 0 where
    nil : Items
    cons : Value → Items → Items

  pub data Fields : Type 0 where
    end : Fields
    field : String → Value → Fields → Fields

-- `m[k]` of a tree.
unfoldable pub get_field : String → Fields → Option Value
get_field k end = none
get_field k (field j v m) = if j == k then some v else get_field k m

-- The value at a path of a tree.
unfoldable pub nested : List String → Fields → Option Value
nested [] m = none
nested (k ∷ []) m = get_field k m
nested (k ∷ j ∷ p) m = elim (get_field k m) [
  | none ↦ none
  | some v ↦ elim v [
    | object f ↦ nested (j ∷ p) f
    | text t ↦ none
    | truth b ↦ none
    | array items ↦ none
  ]
]

-- Neither path is a part of the other.
unfoldable pub diverges : List String → List String → Bool
diverges [] q = false
diverges (j ∷ p) [] = false
diverges (j ∷ p) (k ∷ q) = let rest = diverges p q in if j == k then rest else true

-- `unstructured.Unstructured`: a `CiliumLoadBalancerIPPool` or an ArgoCD `Application`. `tree` is
-- `Object` without its metadata.
pub record Unstructured : Type 0 where
  pub meta : ObjectMeta
  pub tree : Fields

pub data Kind : Type 0 where
  secret config_map service provider_config cluster load_balancer allocation vcluster : Kind
  ip_pool application : Kind

abbrev pub Obj : Kind → Type 0
Obj secret = Secret
Obj config_map = ConfigMap
Obj service = Service
Obj provider_config = ProviderConfig
Obj cluster = Cluster
Obj load_balancer = LoadBalancer
Obj allocation = Allocation
Obj vcluster = Vcluster
Obj ip_pool = Unstructured
Obj application = Unstructured

-- `clientcmdapi.Config`, as far as the operator reads it.
pub record KubeContext : Type 0 where
  pub cluster : String
  pub auth_info : String

pub record KubeCluster : Type 0 where
  pub server : String
  pub insecure_skip_tls_verify : Bool
  pub certificate_authority_data : String

pub record AuthInfo : Type 0 where
  pub token : String
  pub client_certificate_data : String
  pub client_key_data : String

pub record Kubeconfig : Type 0 where
  pub current_context : String
  pub contexts : Map KubeContext
  pub clusters : Map KubeCluster
  pub auth_infos : Map AuthInfo

-- `argoTLSClientConfig`, and `rest.TLSClientConfig`, which has the same fields
pub record ArgoTlsClientConfig : Type 0 where
  pub insecure : Bool
  pub server_name : String
  pub ca_data : String
  pub cert_data : String
  pub key_data : String

-- `argoClusterConfig`; `execProviderConfig` has no fields and is never set.
pub record ArgoClusterConfig : Type 0 where
  pub bearer_token : String
  pub tls_client_config : ArgoTlsClientConfig

-- `rest.Config`
pub record RestConfig : Type 0 where
  pub host : String
  pub bearer_token : String
  pub tls_client_config : ArgoTlsClientConfig

-- `tls.Config` of the transport; `root_cas` is the PEM text added to the system's pool.
pub record TlsConfig : Type 0 where
  pub insecure_skip_verify : Bool
  pub root_cas : Option String

pub data Method : Type 0 where
  method_get method_post method_put : Method

-- `json` is the header `Content-Type: application/json`.
pub record HttpRequest : Type 0 where
  pub method : Method
  pub url : String
  pub json : Bool
  pub body : String

pub record HttpResponse : Type 0 where
  pub status_code : ℕ
  pub body : String

-- `IPInfo`
pub record IpInfo : Type 0 where
  pub ip : String
  pub digit : String
  pub status : String
  pub cluster : String
  pub fqdn : String

-- `ClusterInfo`
pub record ClusterInfo : Type 0 where
  pub cluster : String
  pub fqdn : String
  pub zone : String

-- `ReserveRequest`
pub record ReserveRequest : Type 0 where
  pub cluster : String
  pub count : ℤ
  pub ip : String
  pub create_dns : Bool
  pub status : String

-- `ReserveResponse`
pub record ReserveResponse : Type 0 where
  pub ips : List String
  pub status : String

-- `ReleaseRequest`
pub record ReleaseRequest : Type 0 where
  pub ip : String
