-- ===== src/Api/Meta.antt =====
-- Object metadata, Secrets, ConfigMaps, Services and the references between objects
-- (api/v1alpha1/types.go; the field lists of Kubernetes' objects hold what the operator uses).
use clusterbook_operator.Prelude.{String, Bool, false, List, [], Option, ◌==◌, ◌&&◌}
use clusterbook_operator.Prelude.Map.{Map}

-- `types.NamespacedName`; a cluster-scoped object has the namespace "".
pub record ObjectName : Type 0 where
  pub namespace : String
  pub name : String

abbrev pub same_name : ObjectName → ObjectName → Bool
same_name a b = a.namespace == b.namespace && a.name == b.name

-- `SecretKeyRef`
pub record SecretKeyRef : Type 0 where
  pub name : String
  pub namespace : String
  pub key : String

-- `SecretObjectRef`
pub record SecretObjectRef : Type 0 where
  pub name : String
  pub namespace : String

abbrev pub secret_name : SecretObjectRef → ObjectName
secret_name r = record { namespace = r.namespace; name = r.name }

abbrev pub key_name : SecretKeyRef → ObjectName
key_name r = record { namespace = r.namespace; name = r.name }

pub data ConditionStatus : Type 0 where
  condition_true condition_false : ConditionStatus

-- `metav1.Condition`
pub record Condition : Type 0 where
  pub kind : String
  pub status : ConditionStatus
  pub reason : String
  pub message : String

-- A controller reference: the owner's kind and name.
pub record Owner : Type 0 where
  pub kind : String
  pub name : String

-- `metav1.ObjectMeta`. `deleting` is `!DeletionTimestamp.IsZero()`.
pub record ObjectMeta : Type 0 where
  pub name : ObjectName
  pub labels : Map String
  pub annotations : Map String
  pub finalizers : List String
  pub deleting : Bool
  pub owners : List Owner

-- `ObjectMeta{Name: …, Namespace: …}`
abbrev pub fresh_meta : ObjectName → ObjectMeta
fresh_meta n = record {
  name = n;
  labels = [];
  annotations = [];
  finalizers = [];
  deleting = false;
  owners = [];
}

-- `corev1.Secret`: `Data` and `StringData`; bytes are texts.
pub record Secret : Type 0 where
  pub meta : ObjectMeta
  pub contents : Map String
  pub string_data : Map String

-- `corev1.ConfigMap`
pub record ConfigMap : Type 0 where
  pub meta : ObjectMeta
  pub contents : Map String

-- `corev1.Service`
pub record Service : Type 0 where
  pub meta : ObjectMeta
  pub load_balancer_ip : String

-- `ClusterbookProviderConfigSpec`
pub record ProviderConfigSpec : Type 0 where
  pub api_url : String
  pub insecure_skip_verify : Bool
  pub custom_ca_secret_ref : Option SecretKeyRef

-- `ClusterbookProviderConfig`
pub record ProviderConfig : Type 0 where
  pub meta : ObjectMeta
  pub spec : ProviderConfigSpec
