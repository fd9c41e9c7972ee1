-- ===== src/Vcluster/Kubeconfig.antt =====
-- The vcluster's kubeconfig: read on the host cluster, rewritten, published on the management
-- cluster (controller/vcluster_reconciler.go).
pub mod Rewrite
use clusterbook_operator.Prelude.{String, ◌<>◌, Option, none, some, ◌==◌, value_or, if◌then◌else◌}
use clusterbook_operator.Prelude.Map.{lookup, insert}
use clusterbook_operator.Prelude.Number.{ℤ, pos, is_zero, show}
use clusterbook_operator.Exec.{
  Result, ok, err, message, wrap, is_not_found, and_then, Exec, pure, fail, lift, attempt, context,
  ◌>>=◌,
}
use clusterbook_operator.Api.Meta.{Secret, SecretObjectRef, secret_name}
use clusterbook_operator.Api.Vcluster.{Vcluster}
use clusterbook_operator.World.{World, Codec}
use clusterbook_operator.World.Data.{
  secret, vcluster, Kubeconfig, KubeCluster, KubeContext, ClusterInfo,
}
use clusterbook_operator.Vcluster.Target.{TargetClient, get_from}
use clusterbook_operator.Vcluster.Application.{argo_namespace, created_as}

abbrev pub default_vcluster_server_port : ℤ
default_vcluster_server_port = pos 443

abbrev pub vcluster_upstream_secret_key : String
vcluster_upstream_secret_key = "config"

abbrev pub vcluster_external_secret_key : String
vcluster_external_secret_key = "kubeconfig"

-- The URL without a reservation.
abbrev pub in_cluster_url : Vcluster → String
in_cluster_url cr = "https://" <> (cr.spec.cluster_name <> ("." <> cr.spec.target_namespace))

-- `externalServerURL`
unfoldable pub external_server_url : Vcluster → Option ClusterInfo → String
external_server_url cr none = in_cluster_url cr
external_server_url cr (some info) =
    if info.fqdn == ""
    then in_cluster_url cr
    else "https://"
      <> (info.fqdn
          <> (":"
              <> show (
                  if is_zero cr.spec.server_port
                  then default_vcluster_server_port
                  else cr.spec.server_port)))

-- `cluster.Server = server`, and the encoding.
unfoldable pub write_server :
    Codec → Kubeconfig → String → String → Option KubeCluster → Result String
write_server C cfg server name none =
    err (message ("kubeconfig missing cluster \"" <> (name <> "\"")))
write_server C cfg server name (some k) =
    C.write_kubeconfig
      (record cfg { clusters = insert name (record k { server = server }) cfg.clusters })

unfoldable pub rewrite_context : Codec → Kubeconfig → String → Option KubeContext → Result String
rewrite_context C cfg server none =
    err (message ("current-context \"" <> (cfg.current_context <> "\" missing")))
rewrite_context C cfg server (some ctx) =
    write_server C cfg server ctx.cluster (lookup ctx.cluster cfg.clusters)

-- `rewriteKubeconfigServer`
unfoldable pub rewrite_kubeconfig_server : Codec → String → String → Result String
rewrite_kubeconfig_server C raw server =
    and_then (C.load_kubeconfig raw)
      λ cfg. rewrite_context C cfg server (lookup cfg.current_context cfg.contexts)

-- The kubeconfig of the Secret that was read; an empty one is not there yet.
unfoldable pub upstream_of : Option String → Option String
upstream_of none = none
upstream_of (some raw) = if raw == "" then none else some raw

module _ (W : World) where
  unfoldable pub upstream_found : Vcluster → Result Secret → Exec W.State (Option String)
  upstream_found cr (ok s) = pure (upstream_of (lookup vcluster_upstream_secret_key s.contents))
  upstream_found cr (err e) =
      if is_not_found e
      then pure none
      else fail (
          wrap
            ("get vc-secret "
              <> (cr.spec.target_namespace <> ("/" <> ("vc-" <> cr.spec.cluster_name))))
            e)

  -- `readUpstreamKubeconfig`
  unfoldable pub read_upstream_kubeconfig : TargetClient → Vcluster → Exec W.State (Option String)
  read_upstream_kubeconfig client cr = do
    found ← attempt (
        get_from W client
          (record { namespace = cr.spec.target_namespace; name = "vc-" <> cr.spec.cluster_name }))
    upstream_found cr found

  -- The reference of the external Secret.
  unfoldable pub external_ref : Vcluster → SecretObjectRef
  external_ref cr = record {
    name = "vc-" <> (cr.spec.cluster_name <> "-external");
    namespace = argo_namespace cr;
  }

  -- The callback of `CreateOrUpdate`.
  unfoldable pub render_external : Vcluster → String → Secret → Result Secret
  render_external cr rewritten s =
      and_then (W.machinery.set_controller_reference vcluster cr s.meta) λ m.
        ok (record s {
          meta = m;
          contents = insert vcluster_external_secret_key rewritten s.contents;
        })

  -- `writeExternalKubeconfig`
  unfoldable pub write_external_kubeconfig :
      Vcluster → String → Option ClusterInfo → Exec W.State SecretObjectRef
  write_external_kubeconfig cr raw info = do
    rewritten ←
        context "rewrite kubeconfig"
          (lift (rewrite_kubeconfig_server W.codec raw (external_server_url cr info)))
    written ←
        attempt
          (W.create_or_update secret (secret_name (external_ref cr)) (render_external cr rewritten))
    created_as W (external_ref cr) written
