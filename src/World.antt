-- ===== src/World.antt =====
-- What surrounds the operator: the Kubernetes API through controller-runtime's client, the HTTP
-- transport, the encodings, and the helpers of controller-runtime and apimachinery. None of it is
-- the operator's code, so it is a parameter; `World/Laws.antt` names what the theorems rely on.
pub mod Data
pub mod Laws
use clusterbook_operator.Prelude.{String, Bool, List, Option}
use clusterbook_operator.Exec.{Result, Exec}
use clusterbook_operator.Api.Meta.{Secret, ObjectName, ObjectMeta, Condition}
use clusterbook_operator.Api.Cluster.{Cluster}
use clusterbook_operator.World.Data.{
  Kind, Obj, Value, Fields, Kubeconfig, ArgoClusterConfig, RestConfig, TlsConfig, HttpRequest,
  HttpResponse, ReserveRequest, ReserveResponse, IpInfo, ClusterInfo, ReleaseRequest,
}

-- `encoding/json`, `clientcmd`, `crypto/sha256` with `encoding/hex`, `crypto/x509`, `net/url`.
pub record Codec : Type 0 where
  pub load_kubeconfig : String → Result Kubeconfig
  pub write_kubeconfig : Kubeconfig → Result String
  pub encode_config : ArgoClusterConfig → Result String
  pub decode_config : String → Result ArgoClusterConfig
  pub sha256_hex : String → String
  pub certificates_parse : String → Bool
  pub check_url : String → Result (Unit {0})
  pub encode_reserve : ReserveRequest → Result String
  pub encode_release : ReleaseRequest → Result String
  pub decode_reserve : String → Result ReserveResponse
  pub decode_ips : String → Result (List IpInfo)
  pub decode_info : String → Result ClusterInfo
  pub decode_values : String → Result Fields

-- `controllerutil`, `meta.SetStatusCondition` and `unstructured.SetNestedField`.
pub record Machinery : Type 0 where
  pub contains_finalizer : List String → String → Bool
  pub add_finalizer : List String → String → List String
  pub remove_finalizer : List String → String → List String
  pub set_status_condition : List Condition → Condition → List Condition
  pub set_nested_field : Fields → Value → List String → Result Fields
  pub set_nested_string_slice : Fields → List String → List String → Result Fields
  pub set_controller_reference : (k : Kind) → Obj k → ObjectMeta → Result ObjectMeta

-- The effects. A call that writes answers with the object as the server keeps it.
pub record World : Type 1 where
  pub State : Type 0
  pub codec : Codec
  pub machinery : Machinery
  pub get : (k : Kind) → ObjectName → State → Result (Obj k)
  pub list_clusters : State → Result (List Cluster)
  pub update : (k : Kind) → Obj k → Exec State (Obj k)
  pub update_status : (k : Kind) → Obj k → Exec State (Obj k)
  pub create_or_update : (k : Kind) → ObjectName → (Obj k → Result (Obj k)) → Exec State (Obj k)
  pub delete : (k : Kind) → ObjectName → Exec State (Unit {0})
  pub send : Option TlsConfig → HttpRequest → Exec State HttpResponse
  -- `Reconciler.ProbeCluster`, and what `probeReadyz` uses where it is nil: `rest.HTTPClientFor` and
  -- a request with the client that it gives.
  pub custom_probe : Option (RestConfig → Exec State (Unit {0}))
  pub check_rest : RestConfig → Result (Unit {0})
  pub send_rest : RestConfig → HttpRequest → Exec State HttpResponse
  -- `NewTargetClient`, and a read of a Secret with the client that it gives.
  pub check_target : RestConfig → Result (Unit {0})
  pub get_target_secret : RestConfig → ObjectName → State → Result Secret
