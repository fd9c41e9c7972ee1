-- ===== src/Vcluster/Target.antt =====
-- The host cluster that a vcluster is installed on (controller/vcluster_reconciler.go).
use clusterbook_operator.Prelude.{
  String, ◌<>◌, false, Option, none, some, ◌==◌, default_to, value_or, if◌then◌else◌,
}
use clusterbook_operator.Prelude.Map.{lookup}
use clusterbook_operator.Exec.{
  Result, ok, err, message, wrapped, and_then, Exec, pure, lift, reads, context, ◌>>=◌, ◌>>◌,
}
use clusterbook_operator.Api.Meta.{Secret, SecretObjectRef, ObjectName, secret_name}
use clusterbook_operator.Api.Vcluster.{Vcluster}
use clusterbook_operator.World.{World, Codec}
use clusterbook_operator.World.Data.{
  secret, Fields, end, field, text, ArgoClusterConfig, RestConfig,
}

-- The client that reads the host cluster: the operator's own, or one built from a configuration.
pub data TargetClient : Type 0 where
  own : TargetClient
  remote : RestConfig → TargetClient

-- `targetResolution`
pub record TargetResolution : Type 0 where
  pub client : TargetClient
  pub destination : Fields

-- `var cfg argoClusterConfig`
abbrev pub empty_config : ArgoClusterConfig
empty_config = record {
  bearer_token = "";
  tls_client_config = record {
    insecure = false;
    server_name = "";
    ca_data = "";
    cert_data = "";
    key_data = "";
  };
}

-- `data.config`, where it is not empty.
unfoldable pub secret_config : Codec → String → Result ArgoClusterConfig
secret_config C raw =
    if raw == "" then ok empty_config else wrapped "decode data.config" (C.decode_config raw)

-- `restConfigFromArgoSecret`
unfoldable pub rest_config_from_argo_secret : Codec → Secret → Result RestConfig
rest_config_from_argo_secret C s =
    let server = value_or "" (lookup "server" s.contents) in
    if server == ""
    then err (
        message (
          "secret "
          <> (s.meta.name.namespace <> ("/" <> (s.meta.name.name <> " missing data.server")))))
    else and_then (secret_config C (value_or "" (lookup "config" s.contents))) λ cfg. ok (record {
      host = server;
      bearer_token = cfg.bearer_token;
      tls_client_config = cfg.tls_client_config;
    })

module _ (W : World) where
  -- `targetClient.Get` of a Secret.
  unfoldable pub get_from : TargetClient → ObjectName → Exec W.State Secret
  get_from own n = reads (W.get secret n)
  get_from (remote cfg) n = reads (W.get_target_secret cfg n)

  -- The host cluster of an ArgoCD cluster Secret.
  unfoldable pub resolve_ref : String → SecretObjectRef → Exec W.State TargetResolution
  resolve_ref namespace ref = do
    s ←
        context ("get target cluster secret " <> (ref.namespace <> ("/" <> ref.name)))
          (reads (W.get secret (secret_name ref)))
    cfg ← lift (rest_config_from_argo_secret W.codec s)
    context "build target client" (lift (W.check_target cfg))
    let argo_name = default_to ref.name (value_or "" (lookup "name" s.contents))
    pure (record {
      client = remote cfg;
      destination = field "namespace" (text namespace) (field "name" (text argo_name) end);
    })

  unfoldable pub resolve_option : String → Option SecretObjectRef → Exec W.State TargetResolution
  resolve_option namespace none = pure (record {
    client = own;
    destination =
        field "namespace" (text namespace)
          (field "server" (text "https://kubernetes.default.svc") end);
  })
  resolve_option namespace (some ref) = resolve_ref namespace ref

  -- `resolveTarget`
  unfoldable pub resolve_target : Vcluster → Exec W.State TargetResolution
  resolve_target cr = resolve_option cr.spec.target_namespace cr.spec.target_cluster_ref
