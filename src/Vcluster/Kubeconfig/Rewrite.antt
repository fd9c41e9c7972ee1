-- ===== src/Vcluster/Kubeconfig/Rewrite.antt =====
-- What the settings extracted from a rewritten kubeconfig are (controller/vcluster_reconciler.go,
-- controller/reconciler.go).
use clusterbook_operator.Prelude.{String, ◌≡◌, refl, sym, ◌∙◌, Option, none, some, arith, eq_refl}
use clusterbook_operator.Prelude.Map.{lookup, lookup-insert}
use clusterbook_operator.Exec.{ok}
use clusterbook_operator.Exec.Inversion.{and_then-eq-ok}
use clusterbook_operator.World.{Codec}
use clusterbook_operator.World.Data.{Kubeconfig, KubeContext, KubeCluster, AuthInfo}
use clusterbook_operator.World.Laws.{ReadsBack}
use clusterbook_operator.Cluster.Server.{
  Extracted, argo_config, extract, argo_config_from, argo_config_from_kubeconfig,
}
use clusterbook_operator.Vcluster.Kubeconfig.{
  write_server, rewrite_context, rewrite_kubeconfig_server,
}

argo_config_from-found :
    (C : Codec) (cfg : Kubeconfig) (ctx : KubeContext)
    → lookup cfg.current_context cfg.contexts ≡ some ctx
    → argo_config_from C cfg
      ≡ extract C (lookup ctx.cluster cfg.clusters) (lookup ctx.auth_info cfg.auth_infos)
unfolding argo_config_from
argo_config_from-found C cfg ctx found = rw (argo_config_from, found) refl

abbrev with_server : Extracted → String → Extracted
with_server x server = record x { server = server }

module _ (C : Codec) (server : String) (x : Extracted) where
  -- Only the server of the settings comes from the cluster's entry's server.
  extract-server :
      (k : KubeCluster) (u : Option AuthInfo)
      → extract C (some k) u ≡ ok x
      → extract C (some (record k { server = server })) u ≡ ok (with_server x server)
  unfolding extract argo_config
  extract-server k (some u) h = ground arith
  extract-server k none h = cc

  module _ (laws : ReadsBack C) (cfg : Kubeconfig) (b : String) where
    argo_config_from-rewritten :
        (ctx : KubeContext) (k : Option KubeCluster)
        → lookup cfg.current_context cfg.contexts ≡ some ctx
        → write_server C cfg server ctx.cluster k ≡ ok b
        → extract C k (lookup ctx.auth_info cfg.auth_infos) ≡ ok x
        → argo_config_from_kubeconfig C b ≡ ok (with_server x server)
    unfolding argo_config_from_kubeconfig write_server
    argo_config_from-rewritten ctx (some k) found written ex =
        let (cfg', loaded, same) = laws.load-write_kubeconfig _ b written in
        let found' : lookup cfg'.current_context cfg'.contexts ≡ some ctx =
          rw (same.current_context, same.contexts) found in
        rw
          (
            loaded,
            argo_config_from-found C cfg' ctx found',
            same.clusters,
            same.auth_infos,
            lookup-insert,
            eq_refl,
          )
          (extract-server k (lookup ctx.auth_info cfg.auth_infos) ex)
    argo_config_from-rewritten ctx none found written ex = cc

    rewrite_context-argo_config :
        (ctx : Option KubeContext)
        → lookup cfg.current_context cfg.contexts ≡ ctx
        → rewrite_context C cfg server ctx ≡ ok b
        → argo_config_from C cfg ≡ ok x
        → argo_config_from_kubeconfig C b ≡ ok (with_server x server)
    unfolding rewrite_context argo_config_from
    rewrite_context-argo_config none e written h = cc
    rewrite_context-argo_config (some ctx) e written h =
        argo_config_from-rewritten ctx (lookup ctx.cluster cfg.clusters) e written
          (sym (argo_config_from-found C cfg ctx e) ∙ h)

  -- The settings of a rewritten kubeconfig are those of the original with the new server.
  pub rewrite-argo_config :
      (laws : ReadsBack C) (raw b : String)
      → rewrite_kubeconfig_server C raw server ≡ ok b
      → argo_config_from_kubeconfig C raw ≡ ok x
      → argo_config_from_kubeconfig C b ≡ ok (with_server x server)
  unfolding rewrite_kubeconfig_server argo_config_from_kubeconfig
  rewrite-argo_config laws raw b written h =
      let (cfg, loaded, rest) =
        and_then-eq-ok (C.load_kubeconfig raw)
          (λ cfg. rewrite_context C cfg server (lookup cfg.current_context cfg.contexts)) written in
      rewrite_context-argo_config laws cfg b (lookup cfg.current_context cfg.contexts) refl rest
        (rw loaded at h)
