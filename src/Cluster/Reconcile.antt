-- ===== src/Cluster/Reconcile.antt =====
-- `Reconcile` and `finalize` of `ClusterbookCluster` (controller/reconciler.go).
pub mod Publish
pub mod Ready
pub mod Finalize
pub mod Registration
unfoldable pub use Publish.*
use clusterbook_operator.Prelude.{
  String, ◌<>◌, ℕ, Bool, true, false, not, ◌&&◌, Option, none, some, ◌==◌, if◌then◌else◌,
}
use clusterbook_operator.Exec.{
  Error, Result, ok, err, message, nil_dereference, error_text, is_not_found, Exec, pure, fail,
  lift, reads, attempt, context, ◌>>=◌, ◌>>◌,
}
use clusterbook_operator.Api.Meta.{
  ObjectMeta, Condition, ConditionStatus, condition_true, condition_false, SecretKeyRef,
  SecretObjectRef,
}
use clusterbook_operator.Api.Cluster.{Cluster, ClusterStatus}
use clusterbook_operator.World.{World}
use clusterbook_operator.World.Data.{cluster, secret, ClusterInfo, RestConfig}
use clusterbook_operator.Client.{Client, get_cluster_info, release_ips}
use clusterbook_operator.Shared.{cluster_scoped, load_provider_config, new_clusterbook_client}
use clusterbook_operator.Cluster.Metadata.{Allocated}
use clusterbook_operator.Cluster.Server.{
  Extracted, argo_config_from_kubeconfig, build_server_url, kubeconfig_hash, rest_config_from_argo,
}
use clusterbook_operator.Cluster.Reservation.{
  is_registration_only, registration_only_allocation, ensure_reservation, reconcile_dns_drift,
}
use clusterbook_operator.Cluster.Secrets.{
  argo_secret, load_kubeconfig, upsert_argo_secret, enrich_existing_secret, strip_enriched_metadata,
}

abbrev pub finalizer : String
finalizer = "clusterbook.stuttgart-things.com/finalizer"

unfoldable pub result_option {ℓ} : {A : Type ℓ} → Result A → Option A
result_option (ok a) = some a
result_option (err e) = none

-- The FQDN and the zone go to the status where clusterbook knows the cluster.
unfoldable pub with_info : Option ClusterInfo → ClusterStatus → ClusterStatus
with_info none st = st
with_info (some info) st = record st { fqdn = info.fqdn; zone = info.zone }

module _ (W : World) where
  -- The clusterbook client; none on the registration-only path.
  unfoldable pub api_for : Cluster → Exec W.State (Option Client)
  api_for cr = if is_registration_only cr then pure none else do
    pc ← context "load provider config" (load_provider_config W cr.spec.provider_config_ref)
    api ← context "build clusterbook client" (new_clusterbook_client W pc)
    pure (some api)

  -- The finalizer is added on the first reconcile.
  unfoldable pub ensure_finalizer : Cluster → Exec W.State Cluster
  ensure_finalizer cr =
      if W.machinery.contains_finalizer cr.meta.finalizers finalizer
      then pure cr
      else W.update cluster (record cr {
        meta = record cr.meta {
          finalizers = W.machinery.add_finalizer cr.meta.finalizers finalizer;
        };
      })

  unfoldable pub allocate_from :
      Cluster → Option Client → Exec W.State (Allocated × Option ClusterInfo)
  allocate_from cr none = fail nil_dereference
  allocate_from cr (some api) = do
    alloc ← ensure_reservation W api cr
    reconcile_dns_drift W api cr alloc.ip
    info ← attempt (get_cluster_info W api cr.spec.cluster_name)
    pure (alloc, result_option info)

  -- The allocation, and what clusterbook knows of the cluster. An error of `GetClusterInfo` is
  -- dropped.
  unfoldable pub allocate : Cluster → Option Client → Exec W.State (Allocated × Option ClusterInfo)
  allocate cr api =
      if is_registration_only cr
      then pure (registration_only_allocation cr, none)
      else allocate_from cr api

  -- The status that a reconcile writes.
  unfoldable pub final_status : Outcome → Allocated → Option ClusterInfo → Cluster
  final_status o alloc info = record (o.cr) {
    status = with_info info (record (o.cr.status) {
      ip = alloc.ip;
      secret_name = o.secret_name;
      kubeconfig_hash = o.kubeconfig_hash;
      lb_range_start = alloc.lb_range_start;
      lb_range_stop = alloc.lb_range_stop;
    });
  }

  -- The part of `Reconcile` for a CR that is not being deleted. A failed write of the status is
  -- only logged.
  unfoldable pub reconcile_live : Cluster → Option Client → Exec W.State Requeue
  reconcile_live found api = do
    cr ← ensure_finalizer found
    (alloc, info) ← allocate cr api
    o ← publish W cr.spec.existing_secret_ref cr.spec.kubeconfig_secret_ref cr alloc info
    attempt (W.update_status cluster (final_status o alloc info))
    pure o.requeue

  -- The Secret of a deleted CR: a foreign one is stripped, the rendered one deleted; an error of
  -- the deletion is dropped.
  unfoldable pub withdraw : Option SecretObjectRef → Cluster → Exec W.State (Unit {0})
  withdraw (some ref) cr = context "strip enriched metadata" (strip_enriched_metadata W ref)
  withdraw none cr = do attempt (W.delete secret (argo_secret cr)); pure tt

  -- The release of the IP.
  unfoldable pub release : Cluster → Option Client → Exec W.State (Unit {0})
  release cr none = pure tt
  release cr (some api) =
      if cr.spec.release_on_delete && not (cr.status.ip == "")
      then context "release IP"
          (release_ips W api cr.spec.network_key (record { ip = cr.status.ip }))
      else pure tt

  -- The clean-up, and the removal of the finalizer once it has succeeded.
  unfoldable pub clean_up : Cluster → Option Client → Exec W.State Requeue
  clean_up cr api = do
    withdraw cr.spec.existing_secret_ref cr
    release cr api
    W.update cluster (record cr {
      meta = record cr.meta {
        finalizers = W.machinery.remove_finalizer cr.meta.finalizers finalizer;
      };
    })
    pure none

  -- `finalize`
  unfoldable pub finalize : Cluster → Option Client → Exec W.State Requeue
  finalize cr api =
      if W.machinery.contains_finalizer cr.meta.finalizers finalizer
      then clean_up cr api
      else pure none

  unfoldable pub reconcile_found : Cluster → Exec W.State Requeue
  reconcile_found cr = do
    api ← api_for cr
    if cr.meta.deleting then finalize cr api else reconcile_live cr api

  unfoldable pub reconcile_get : Result Cluster → Exec W.State Requeue
  reconcile_get (ok cr) = reconcile_found cr
  reconcile_get (err e) = if is_not_found e then pure none else fail e

  -- `Reconcile`
  unfoldable pub reconcile : String → Exec W.State Requeue
  reconcile name = do
    found ← attempt (reads (W.get cluster (cluster_scoped name)))
    reconcile_get found
