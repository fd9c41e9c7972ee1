-- ===== src/Cluster/Server.antt =====
-- The server URL and the connection settings of the rendered Secret (controller/reconciler.go,
-- controller/readiness.go).
pub mod Connection
use clusterbook_operator.Prelude.{
  String, ◌<>◌, ◌&&◌, not, Option, none, some, ◌==◌, starts_with, default_to, if◌then◌else◌,
}
use clusterbook_operator.Prelude.Text.{trim_prefix}
use clusterbook_operator.Prelude.Map.{lookup}
use clusterbook_operator.Prelude.Number.{ℤ, pos, is_zero, show}
use clusterbook_operator.Exec.{Result, ok, err, message, wrapped, and_then}
use clusterbook_operator.Api.Cluster.{Cluster}
use clusterbook_operator.World.{Codec}
use clusterbook_operator.World.Data.{
  Kubeconfig, KubeCluster, AuthInfo, ArgoClusterConfig, RestConfig, ClusterInfo,
}

abbrev pub default_port : ℤ
default_port = pos 6443

-- `resolvableHost`
unfoldable pub resolvable_host : String → String → String
resolvable_host fqdn subdomain =
    if not (starts_with fqdn "*.")
    then fqdn
    else default_to "api" subdomain <> ("." <> trim_prefix fqdn "*.")

-- The host of the server URL: the IP, or a name under the FQDN.
unfoldable pub server_host : Cluster → String → Option ClusterInfo → String
server_host cr ip none = ip
server_host cr ip (some info) =
    if cr.spec.use_fqdn_as_server && not (info.fqdn == "")
    then resolvable_host info.fqdn cr.spec.server_subdomain
    else ip

-- `buildServerURL`
unfoldable pub build_server_url : Cluster → String → String → Option ClusterInfo → String
build_server_url cr ip kubeconfig_server info =
    if cr.spec.preserve_kubeconfig_server && not (kubeconfig_server == "")
    then kubeconfig_server
    else let port = if is_zero cr.spec.server_port then default_port else cr.spec.server_port in
      "https://" <> (server_host cr ip info <> (":" <> show port))

-- The results of `argoConfigFromKubeconfig`.
pub record Extracted : Type 0 where
  pub config : String
  pub ca_data : String
  pub server : String

-- The connection settings from a kubeconfig's cluster and user.
unfoldable pub argo_config : KubeCluster → AuthInfo → ArgoClusterConfig
argo_config c u = record {
  bearer_token = u.token;
  tls_client_config = record {
    insecure = c.insecure_skip_tls_verify;
    server_name = "";
    ca_data = c.certificate_authority_data;
    cert_data = u.client_certificate_data;
    key_data = u.client_key_data;
  };
}

unfoldable pub extract : Codec → Option KubeCluster → Option AuthInfo → Result Extracted
extract C (some c) (some u) =
    and_then (C.encode_config (argo_config c u))
      λ b. ok (record { config = b; ca_data = c.certificate_authority_data; server = c.server })
extract C (some c) none = err (message "kubeconfig missing cluster or user")
extract C none u = err (message "kubeconfig missing cluster or user")

-- The part after `clientcmd.Load`.
unfoldable pub argo_config_from : Codec → Kubeconfig → Result Extracted
argo_config_from C cfg = elim (lookup cfg.current_context cfg.contexts) [
  | none ↦ err (message ("current-context \"" <> (cfg.current_context <> "\" missing")))
  | some ctx ↦ extract C (lookup ctx.cluster cfg.clusters) (lookup ctx.auth_info cfg.auth_infos)
]

-- `argoConfigFromKubeconfig`
unfoldable pub argo_config_from_kubeconfig : Codec → String → Result Extracted
argo_config_from_kubeconfig C raw = and_then (C.load_kubeconfig raw) (argo_config_from C)

-- `restConfigFromArgo`
unfoldable pub rest_config_from_argo : Codec → String → String → Result RestConfig
rest_config_from_argo C server cfg_json =
    and_then (wrapped "decode argo cluster config" (C.decode_config cfg_json)) λ ac. ok (record {
      host = server;
      bearer_token = ac.bearer_token;
      tls_client_config = ac.tls_client_config;
    })

-- `kubeconfigHash`
unfoldable pub kubeconfig_hash : Codec → String → String
kubeconfig_hash C raw = "sha256:" <> C.sha256_hex raw
