-- ===== src/World/Laws.antt =====
-- What the theorems rely on of the parts that are parameters.
use clusterbook_operator.Prelude.{List, true, ◌∷◌, some, String, [], ◌≡◌}
use clusterbook_operator.Prelude.Map.{lookup}
use clusterbook_operator.Exec.{ok}
use clusterbook_operator.Api.Meta.{ObjectName, Secret, Service}
use clusterbook_operator.Api.LoadBalancer.{LoadBalancer}
use clusterbook_operator.World.{World, Codec, Machinery}
use clusterbook_operator.World.Data.{
  Value, Items, Fields, text, array, nil, cons, nested, diverges, Kubeconfig, secret, service,
  load_balancer, ArgoClusterConfig,
}

-- The API server on Secrets: a read after a write answers what the write answered, an update
-- without `StringData` keeps the metadata and the data that it was given, and a Secret is read
-- under its own name.
pub record ServesSecrets (W : World) : Type 0 where
  pub get-update :
      (o o' : Secret) (s t : W.State)
      → W.update secret o s ≡ (ok o', t)
      → W.get secret o.meta.name t ≡ ok o'
  pub update_keeps :
      (o o' : Secret) (s t : W.State)
      → o.string_data ≡ []
      → W.update secret o s ≡ (ok o', t)
      → (o'.meta.labels ≡ o.meta.labels)
        × (o'.meta.annotations ≡ o.meta.annotations)
        × (o'.contents ≡ o.contents)
  pub get_name :
      (n : ObjectName) (o : Secret) (s : W.State) → W.get secret n s ≡ ok o → o.meta.name ≡ n
  -- `StringData` is write-only.
  pub get_string_data :
      (n : ObjectName) (o : Secret) (s : W.State) → W.get secret n s ≡ ok o → o.string_data ≡ []

-- `encoding/json` reads back the connection settings that it wrote.
pub record RoundTrips (C : Codec) : Type 0 where
  pub decode-encode_config :
      (c : ArgoClusterConfig) (b : String) → C.encode_config c ≡ ok b → C.decode_config b ≡ ok c

-- `clientcmd` reads back what it wrote: a kubeconfig with the same entries under the same names.
pub record SameConfig (k k' : Kubeconfig) : Type 0 where
  pub current_context : k'.current_context ≡ k.current_context
  pub contexts : (n : String) → lookup n k'.contexts ≡ lookup n k.contexts
  pub clusters : (n : String) → lookup n k'.clusters ≡ lookup n k.clusters
  pub auth_infos : (n : String) → lookup n k'.auth_infos ≡ lookup n k.auth_infos

pub record ReadsBack (C : Codec) : Type 0 where
  pub load-write_kubeconfig :
      (k : Kubeconfig) (b : String)
      → C.write_kubeconfig k ≡ ok b
      → (k' : Kubeconfig) × (C.load_kubeconfig b ≡ ok k') × SameConfig k k'

-- `unstructured.SetNestedField` and `SetNestedStringSlice` set the value at a path, and what is
-- elsewhere stays.
abbrev pub texts : List String → Items
texts [] = nil
texts (t ∷ ts) = cons (text t) (texts ts)

pub record SetsFields (M : Machinery) : Type 0 where
  pub nested-set_nested_field :
      (m m' : Fields) (v : Value) (p : List String)
      → M.set_nested_field m v p ≡ ok m'
      → nested p m' ≡ some v
  pub nested-set_nested_field_other :
      (m m' : Fields) (v : Value) (p q : List String)
      → M.set_nested_field m v p ≡ ok m'
      → diverges q p ≡ true
      → nested q m' ≡ nested q m
  pub nested-set_nested_string_slice :
      (m m' : Fields) (vs p : List String)
      → M.set_nested_string_slice m vs p ≡ ok m'
      → nested p m' ≡ some (array (texts vs))
  pub nested-set_nested_string_slice_other :
      (m m' : Fields) (vs p q : List String)
      → M.set_nested_string_slice m vs p ≡ ok m'
      → diverges q p ≡ true
      → nested q m' ≡ nested q m

-- The API server on Services and on the CRs that record their prior IPs.
pub record ServesServices (W : World) : Type 0 where
  pub get-update :
      (o o' : Service) (s t : W.State)
      → W.update service o s ≡ (ok o', t)
      → W.get service o.meta.name t ≡ ok o'
  pub update_keeps :
      (o o' : Service) (s t : W.State)
      → W.update service o s ≡ (ok o', t)
      → (o'.load_balancer_ip ≡ o.load_balancer_ip) × (o'.meta.name ≡ o.meta.name)
  pub get_name :
      (n : ObjectName) (o : Service) (s : W.State) → W.get service n s ≡ ok o → o.meta.name ≡ n
  -- A CR is written with the annotations that it is given, and no Service changes by that.
  pub update_annotations :
      (o o' : LoadBalancer) (s t : W.State)
      → W.update load_balancer o s ≡ (ok o', t)
      → o'.meta.annotations ≡ o.meta.annotations
  pub get-update_load_balancer :
      (o o' : LoadBalancer) (s t : W.State) (n : ObjectName)
      → W.update load_balancer o s ≡ (ok o', t)
      → W.get service n t ≡ W.get service n s
