-- ===== src/Cluster/Reconcile/Publish.antt =====
-- The two ways to publish a cluster, with the readiness probe of the render path
-- (controller/reconciler.go, controller/readiness.go).
use clusterbook_operator.Prelude.{
  String, ◌<>◌, ℕ, Bool, true, false, Option, none, some, if◌then◌else◌,
}
use clusterbook_operator.Exec.{
  Result, ok, err, nil_dereference, error_text, Exec, pure, fail, lift, attempt, context, ◌>>=◌,
}
use clusterbook_operator.Api.Meta.{
  Condition, condition_true, condition_false, SecretKeyRef, SecretObjectRef,
}
use clusterbook_operator.Api.Cluster.{Cluster}
use clusterbook_operator.World.{World}
use clusterbook_operator.World.Data.{ClusterInfo}
use clusterbook_operator.Readiness.{probe}
use clusterbook_operator.Cluster.Metadata.{Allocated}
use clusterbook_operator.Cluster.Server.{
  Extracted, argo_config_from_kubeconfig, build_server_url, kubeconfig_hash, rest_config_from_argo,
}
use clusterbook_operator.Cluster.Secrets.{
  load_kubeconfig, upsert_argo_secret, enrich_existing_secret,
}

abbrev pub condition_cluster_reachable : String
condition_cluster_reachable = "ClusterReachable"

-- `ctrl.Result`: the seconds of `RequeueAfter`, where it is set.
abbrev pub Requeue : Type 0
Requeue = Option ℕ

-- `probeRequeue`
abbrev pub probe_requeue : ℕ
probe_requeue = 30

-- What a reconcile resolved before it writes the status.
pub record Outcome : Type 0 where
  pub cr : Cluster
  pub secret_name : String
  pub kubeconfig_hash : String
  pub requeue : Requeue

module _ (W : World) where
  -- `meta.SetStatusCondition(&cr.Status.Conditions, …)`
  unfoldable pub set_condition : Condition → Cluster → Cluster
  set_condition c cr = record cr {
    status = record cr.status {
      conditions = W.machinery.set_status_condition cr.status.conditions c;
    };
  }

  abbrev pub reconciled : Condition
  reconciled = record {
    kind = "Ready";
    status = condition_true;
    reason = "Reconciled";
    message = "";
  }

  -- `probeCluster`
  unfoldable pub probe_cluster : String → String → Exec W.State (Unit {0})
  probe_cluster server cfg = do rest ← lift (rest_config_from_argo W.codec server cfg); probe W rest

  -- What the outcome of the probe does to the CR and to the result.
  unfoldable pub probed : Cluster → String → Result (Unit {0}) → Cluster × Requeue
  probed cr server (err e) = (
    set_condition
        (record {
          kind = condition_cluster_reachable;
          status = condition_false;
          reason = "ProbeFailed";
          message = error_text e;
        })
        cr,
    some probe_requeue,
  )
  probed cr server (ok _) = (
    set_condition
        (record {
          kind = condition_cluster_reachable;
          status = condition_true;
          reason = "ReadyzOK";
          message = "GET " <> (server <> "/readyz answered 200");
        })
        (record cr { status = record cr.status { cluster_ready = true } }),
    none,
  )

  -- `if !cr.Status.ClusterReady { … }`
  unfoldable pub check_ready : Cluster → String → String → Exec W.State (Cluster × Requeue)
  check_ready cr server cfg =
      if cr.status.cluster_ready
      then pure (cr, none)
      else do answer ← attempt (probe_cluster server cfg); pure (probed cr server answer)

  -- The Secret is written after the probe, so that a first success labels it at once.
  unfoldable pub write_rendered :
      Allocated
      → Option ClusterInfo
      → String
      → String
      → String
      → Cluster × Requeue
      → Exec W.State Outcome
  write_rendered alloc info server kc_hash cfg (cr, requeue) = do
    name ← context "upsert argo secret" (upsert_argo_secret W cr alloc info server kc_hash cfg)
    pure (record {
      cr = set_condition reconciled cr;
      secret_name = name;
      kubeconfig_hash = kc_hash;
      requeue = requeue;
    })

  -- The probe and the write, for a kubeconfig and what was extracted from it.
  unfoldable pub render_with :
      Cluster → Allocated → Option ClusterInfo → String → Extracted → Exec W.State Outcome
  render_with cr alloc info kcfg x = do
    let server = build_server_url cr alloc.ip x.server info
    checked ← check_ready cr server x.config
    write_rendered alloc info server (kubeconfig_hash W.codec kcfg) x.config checked

  unfoldable pub render_from :
      Cluster → Allocated → Option ClusterInfo → String → Exec W.State Outcome
  render_from cr alloc info kcfg = do
    x ← context "extract kubeconfig" (lift (argo_config_from_kubeconfig W.codec kcfg))
    render_with cr alloc info kcfg x

  -- The render path, with the kubeconfig that `spec.kubeconfigSecretRef` names.
  unfoldable pub render_path :
      SecretKeyRef → Cluster → Allocated → Option ClusterInfo → Exec W.State Outcome
  render_path ref cr alloc info = do
    kcfg ← context "load kubeconfig" (load_kubeconfig W ref)
    render_from cr alloc info kcfg

  -- The conditions of the enrich path.
  unfoldable pub enriched : SecretObjectRef → Cluster → Bool → Cluster
  enriched ref cr true =
      set_condition
        (record {
          kind = "Ready";
          status = condition_false;
          reason = "ExistingSecretNotFound";
          message = "secret " <> (ref.namespace <> ("/" <> (ref.name <> " not found")));
        })
        cr
  enriched ref cr false = set_condition reconciled cr

  -- The enrich path.
  unfoldable pub enrich_path :
      SecretObjectRef → Cluster → Allocated → Option ClusterInfo → Exec W.State Outcome
  enrich_path ref cr alloc info = do
    missing ← context "enrich existing secret" (enrich_existing_secret W ref cr alloc info)
    pure (record {
      cr = enriched ref cr missing;
      secret_name = ref.name;
      kubeconfig_hash = "";
      requeue = none;
    })

  -- With neither reference the source dereferences a nil pointer.
  unfoldable pub publish :
      Option SecretObjectRef
      → Option SecretKeyRef
      → Cluster
      → Allocated
      → Option ClusterInfo
      → Exec W.State Outcome
  publish (some ref) kubeconfig cr alloc info = enrich_path ref cr alloc info
  publish none (some ref) cr alloc info = render_path ref cr alloc info
  publish none none cr alloc info = fail nil_dereference
