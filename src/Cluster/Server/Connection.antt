-- ===== src/Cluster/Server/Connection.antt =====
-- Which server the Secret points at, and with which credentials.
use text.Mathlib.TextPositions.{starts_with-append, slice-append_right, len-append}
use text.Mathlib.TextLemmas.{cons-ne-nil, append-eq-nil_iff}
use clusterbook_operator.Exec.Inversion.{and_then-eq-ok}
use clusterbook_operator.Prelude.{
  String, ◌<>◌, ◌≡◌, refl, true, false, Option, none, some, arith, ◌==◌, default_to, ==-ne,
  if◌then◌else◌,
}
use clusterbook_operator.Prelude.Text.{trim_prefix}
use clusterbook_operator.Prelude.Map.{lookup}
use clusterbook_operator.Prelude.Number.{show, is_zero}
use clusterbook_operator.Exec.{ok}
use clusterbook_operator.Api.Cluster.{Cluster}
use clusterbook_operator.World.{Codec}
use clusterbook_operator.World.Data.{Kubeconfig, KubeContext, KubeCluster, AuthInfo, ClusterInfo}
use clusterbook_operator.World.Laws.{RoundTrips}
use clusterbook_operator.Cluster.Server.{
  default_port, resolvable_host, server_host, build_server_url, Extracted, argo_config, extract,
  argo_config_from, argo_config_from_kubeconfig, rest_config_from_argo,
}

-- In a wildcard FQDN the star gives way to the subdomain, "api" if none is set; any other FQDN
-- passes unchanged.
pub resolvable_host-wildcard :
    (zone subdomain : String)
    → resolvable_host ("*." <> zone) subdomain ≡ default_to "api" subdomain <> ("." <> zone)
unfolding resolvable_host trim_prefix
resolvable_host-wildcard zone subdomain =
    rw (starts_with-append, len-append, slice-append_right) refl

wildcard-ne-nil : (zone : String) → (("*." <> zone) == "") ≡ false
wildcard-ne-nil zone = ==-ne ("*." <> zone) "" (λ e. cons-ne-nil "*" "." (append-eq-nil_iff.0 e).0)

-- If the CR asks for the FQDN as server and not for the kubeconfig's own, and clusterbook
-- reports the wildcard record of a zone, the URL is https with the host of the CR's subdomain
-- in that zone, api if it gives none, and the CR's port, 6443 if it is zero.
pub build_server_url-fqdn :
    (cr : Cluster) (ip kubeconfig_server zone : String) (info : ClusterInfo)
    → cr.spec.preserve_kubeconfig_server ≡ false
    → cr.spec.use_fqdn_as_server ≡ true
    → info.fqdn ≡ "*." <> zone
    → build_server_url cr ip kubeconfig_server (some info)
      ≡ "https://"
        <> ((default_to "api" cr.spec.server_subdomain <> ("." <> zone))
            <> (":"
                <> show
                    (if is_zero cr.spec.server_port then default_port else cr.spec.server_port)))
unfolding build_server_url server_host
build_server_url-fqdn cr ip k zone info keep use_fqdn e =
    rw (keep, use_fqdn, e, wildcard-ne-nil zone, resolvable_host-wildcard) refl

module _ (C : Codec) (laws : RoundTrips C) where
  extract-inv :
      (c : Option KubeCluster) (u : Option AuthInfo) (x : Extracted)
      → extract C c u ≡ ok x
      → (k : KubeCluster) × (a : AuthInfo) × (c ≡ some k)
        × (u ≡ some a)
        × (x.server ≡ k.server)
        × (C.decode_config x.config ≡ ok (argo_config k a))
  unfolding extract
  extract-inv (some c) (some u) x h = (
    c,
    u,
    refl,
    refl,
    ground arith,
    ground (arith, laws.decode-encode_config (argo_config c u) x.config),
  )
  extract-inv (some c) none x h = absurd (cc)
  extract-inv none u x h = absurd (cc)

  argo_config_from-inv :
      (cfg : Kubeconfig) (x : Extracted)
      → argo_config_from C cfg ≡ ok x
      → (ctx : KubeContext) × (lookup cfg.current_context cfg.contexts ≡ some ctx)
        × (extract C (lookup ctx.cluster cfg.clusters) (lookup ctx.auth_info cfg.auth_infos) ≡ ok x)
  unfolding argo_config_from
  argo_config_from-inv cfg x h = go (lookup cfg.current_context cfg.contexts) refl
    where
      go :
          (o : Option KubeContext)
          → lookup cfg.current_context cfg.contexts ≡ o
          → (ctx : KubeContext) × (lookup cfg.current_context cfg.contexts ≡ some ctx)
            × (extract C (lookup ctx.cluster cfg.clusters) (lookup ctx.auth_info cfg.auth_infos)
                ≡ ok x)
      go none e = absurd (ground arith)
      go (some ctx) e = (ctx, e, ground arith)

  -- Where encoding/json reads back what it wrote: if settings are extracted from a kubeconfig,
  -- then its current context names a cluster and a user in it, the extracted server is that
  -- cluster's, and the client configuration that the readiness probe builds from the rendered
  -- server and config has that server for its host, that user's credentials and that cluster's
  -- trust settings.
  pub rest_config-argo_config :
      (raw server : String) (x : Extracted)
      → argo_config_from_kubeconfig C raw ≡ ok x
      → (cfg : Kubeconfig) × (ctx : KubeContext) × (k : KubeCluster) × (u : AuthInfo)
        × (C.load_kubeconfig raw ≡ ok cfg)
        × (lookup cfg.current_context cfg.contexts ≡ some ctx)
        × (lookup ctx.cluster cfg.clusters ≡ some k)
        × (lookup ctx.auth_info cfg.auth_infos ≡ some u)
        × (x.server ≡ k.server)
        × (rest_config_from_argo C server x.config
            ≡ ok (record {
              host = server;
              bearer_token = u.token;
              tls_client_config = record {
                insecure = k.insecure_skip_tls_verify;
                server_name = "";
                ca_data = k.certificate_authority_data;
                cert_data = u.client_certificate_data;
                key_data = u.client_key_data;
              };
            }))
  unfolding argo_config_from_kubeconfig argo_config_from rest_config_from_argo argo_config
  rest_config-argo_config raw server x h =
      let (cfg, loaded, rest) = and_then-eq-ok (C.load_kubeconfig raw) (argo_config_from C) h in
      let (ctx, found, ex) = argo_config_from-inv cfg x rest in
      let (k, u, ek, eu, es, ed) =
        extract-inv (lookup ctx.cluster cfg.clusters) (lookup ctx.auth_info cfg.auth_infos) x ex in
      (cfg, ctx, k, u, loaded, found, ek, eu, es, rw ed refl)
