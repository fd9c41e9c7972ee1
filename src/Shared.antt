-- ===== src/Shared.antt =====
-- controller/shared.go, and the names that the reconcilers share (controller/reconciler.go).
pub mod Provider
pub mod Teardown
use clusterbook_operator.Prelude.{
  String, Option, none, some, ◌==◌, default_to, value_or, if◌then◌else◌,
}
use clusterbook_operator.Prelude.Map.{Map, lookup, insert}
use clusterbook_operator.Exec.{Exec, lift, pure, reads, ◌>>=◌}
use clusterbook_operator.Api.Meta.{ObjectName, SecretKeyRef, ProviderConfig, key_name}
use clusterbook_operator.World.{World}
use clusterbook_operator.World.Data.{secret, provider_config}
use clusterbook_operator.Client.{Client, new_client}

abbrev pub default_argo_namespace : String
default_argo_namespace = "argocd"

-- `if v != "" { m[k] = v }`
unfoldable pub insert_nonempty : String → String → Map String → Map String
insert_nonempty k v m = if v == "" then m else insert k v m

-- An object that is not namespaced.
abbrev pub cluster_scoped : String → ObjectName
cluster_scoped name = record { namespace = ""; name = name }

module _ (W : World) where
  -- `loadProviderConfig`
  unfoldable pub load_provider_config : String → Exec W.State ProviderConfig
  load_provider_config name = reads (W.get provider_config (cluster_scoped name))

  -- The custom CA's text, where the reference names a Secret; a missing key reads as "".
  unfoldable pub custom_ca : Option SecretKeyRef → Exec W.State String
  custom_ca none = pure ""
  custom_ca (some ref) = do
    s ← reads (W.get secret (key_name ref))
    pure (value_or "" (lookup (default_to "ca.crt" ref.key) s.contents))

  -- `newClusterbookClient`
  unfoldable pub new_clusterbook_client : ProviderConfig → Exec W.State Client
  new_clusterbook_client pc = do
    ca ← custom_ca pc.spec.custom_ca_secret_ref
    lift (
        new_client W.codec pc.spec.api_url
          (some (record { insecure_skip_verify = pc.spec.insecure_skip_verify; custom_ca = ca })))
