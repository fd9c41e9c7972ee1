-- ===== src/Cluster/Reconcile/Registration.antt =====
-- CRs on the registration-only path (controller/reconciler.go).
use clusterbook_operator.Prelude.{◌≡◌, refl, true, Option, none, some, if◌then◌else◌}
use clusterbook_operator.Exec.{Exec, pure, attempt, ◌>>=◌, ◌>>◌}
use clusterbook_operator.Api.Meta.{SecretKeyRef, SecretObjectRef}
use clusterbook_operator.Api.Cluster.{Cluster}
use clusterbook_operator.World.{World}
use clusterbook_operator.World.Data.{TlsConfig, HttpRequest, HttpResponse, ClusterInfo, cluster}
use clusterbook_operator.Readiness.{probe, probe_readyz}
use clusterbook_operator.Cluster.Metadata.{Allocated}
use clusterbook_operator.Cluster.Reservation.{is_registration_only}
use clusterbook_operator.Cluster.Reconcile.{
  final_status, withdraw, release, clean_up, finalize, reconcile_found, reconcile_live, api_for,
  allocate, allocate_from, ensure_finalizer, publish, render_path, render_from, render_with,
  write_rendered, enrich_path, check_ready, probe_cluster, probed, set_condition, enriched,
}
use clusterbook_operator.Cluster.Secrets.{
  load_kubeconfig, upsert_argo_secret, unless_exists, enrich_existing_secret, enrich_found,
  strip_enriched_metadata, strip_found, render,
}

module _ (W : World) (send : Option TlsConfig → HttpRequest → Exec W.State HttpResponse) where
  -- The same world with another transport.
  abbrev other : World
  other = record W { send = send }

  allocate-other : (cr : Cluster) → allocate W cr none ≡ allocate other cr none
  unfolding allocate allocate_from
  allocate-other cr = refl

  publish-other :
      (existing : Option SecretObjectRef) (kubeconfig : Option SecretKeyRef) (cr : Cluster)
      (alloc : Allocated) (info : Option ClusterInfo)
      → publish W existing kubeconfig cr alloc info
        ≡ publish other existing kubeconfig cr alloc info
  unfolding publish render_path render_from render_with write_rendered enrich_path check_ready
      probe_cluster probed set_condition enriched load_kubeconfig upsert_argo_secret unless_exists
      enrich_existing_secret enrich_found render probe probe_readyz
  publish-other (some ref) kubeconfig cr alloc info = refl
  publish-other none (some ref) cr alloc info = refl
  publish-other none none cr alloc info = refl

  withdraw-other :
      (existing : Option SecretObjectRef) (cr : Cluster)
      → withdraw W existing cr ≡ withdraw other existing cr
  unfolding withdraw strip_enriched_metadata strip_found
  withdraw-other (some ref) cr = refl
  withdraw-other none cr = refl

  finalize-other : (cr : Cluster) → finalize W cr none ≡ finalize other cr none
  unfolding finalize clean_up withdraw strip_enriched_metadata strip_found release
  finalize-other cr = refl

  reconcile_live-other : (cr : Cluster) → reconcile_live W cr none ≡ reconcile_live other cr none
  unfolding reconcile_live ensure_finalizer final_status set_condition
  reconcile_live-other cr = λ i. ensure_finalizer W cr >>= λ cr'.
      allocate-other cr' i >>= λ (p : Allocated × Option ClusterInfo).
      publish-other cr'.spec.existing_secret_ref cr'.spec.kubeconfig_secret_ref cr' p.0 p.1 i
      >>= λ o. attempt (W.update_status cluster (final_status W o p.0 p.1)) >> pure o.requeue

  -- A CR on the registration-only path is reconciled, and finalized, without one request to
  -- clusterbook: with any other transport in place of the world's own, the reconcile of that CR
  -- is the same function.
  pub reconcile_found-no_send :
      (cr : Cluster)
      → is_registration_only cr ≡ true
      → reconcile_found W cr ≡ reconcile_found other cr
  unfolding reconcile_found api_for
  reconcile_found-no_send cr h =
      rw h (λ i s. (if cr.meta.deleting then finalize-other cr i else reconcile_live-other cr i) s)
