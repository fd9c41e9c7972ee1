-- ===== src/Allocation/Reconcile.antt =====
-- `Reconcile` and `finalize` of `ClusterbookAllocation` (controller/allocation_reconciler.go).
use clusterbook_operator.Prelude.{String, not, ◌&&◌, Option, none, some, ◌==◌, if◌then◌else◌}
use clusterbook_operator.Exec.{
  Result, ok, err, is_not_found, Exec, pure, fail, reads, attempt, context, ◌>>=◌, ◌>>◌,
}
use clusterbook_operator.Api.Meta.{condition_true, SecretObjectRef}
use clusterbook_operator.Api.Allocation.{Allocation, AllocationStatus, ConfigMapSink, sink_name}
use clusterbook_operator.World.{World}
use clusterbook_operator.World.Data.{allocation, config_map, ClusterInfo}
use clusterbook_operator.Client.{Client, get_cluster_info, get_ips, release_ips}
use clusterbook_operator.Shared.{cluster_scoped, load_provider_config, new_clusterbook_client}
use clusterbook_operator.Single.{Wish, ensure_single}
use clusterbook_operator.Cluster.Reservation.{find_ip, drift_request, send_update}
use clusterbook_operator.Cluster.Reconcile.{result_option}
use clusterbook_operator.Allocation.Sinks.{
  upsert_config_map_sink, enrich_cluster_secret, strip_cluster_secret,
}

abbrev pub allocation_finalizer : String
allocation_finalizer = "clusterbook.stuttgart-things.com/allocation-finalizer"

unfoldable pub wish : Allocation → Wish
wish cr = record {
  status_ip = cr.status.ip;
  network_key = cr.spec.network_key;
  name = cr.spec.name;
  create_dns = cr.spec.create_dns;
}

unfoldable pub status_with_info : Option ClusterInfo → AllocationStatus → AllocationStatus
status_with_info none st = st
status_with_info (some info) st = record st { fqdn = info.fqdn; zone = info.zone }

module _ (W : World) where
  -- `ensureReservation`
  unfoldable pub ensure_reservation : Client → Allocation → Exec W.State String
  ensure_reservation api cr = ensure_single W api (wish cr)

  -- `reconcileDNSDrift`
  unfoldable pub reconcile_dns_drift : Client → Allocation → String → Exec W.State (Unit {0})
  reconcile_dns_drift api cr ip = do
    ips ← context "list IPs" (get_ips W api cr.spec.network_key)
    send_update W api cr.spec.network_key ip
        (drift_request cr.spec.name cr.spec.create_dns (find_ip ip ips))

  unfoldable pub ensure_finalizer : Allocation → Exec W.State Allocation
  ensure_finalizer cr =
      if W.machinery.contains_finalizer cr.meta.finalizers allocation_finalizer
      then pure cr
      else W.update allocation (record cr {
        meta = record cr.meta {
          finalizers = W.machinery.add_finalizer cr.meta.finalizers allocation_finalizer;
        };
      })

  -- The ConfigMap sink, where the CR has one.
  unfoldable pub publish_config_map :
      Allocation → String → Option ClusterInfo → Option ConfigMapSink → Exec W.State (Unit {0})
  publish_config_map cr ip info none = pure tt
  publish_config_map cr ip info (some s) =
      context "upsert configmap sink" (upsert_config_map_sink W cr ip info s)

  -- The cluster Secret sink, where the CR has one.
  unfoldable pub publish_secret :
      Allocation → String → Option ClusterInfo → Option SecretObjectRef → Exec W.State Allocation
  publish_secret cr ip info none = pure cr
  publish_secret cr ip info (some ref) =
      context "enrich cluster secret" (enrich_cluster_secret W cr ip info ref)

  unfoldable pub final_status : Allocation → String → Option ClusterInfo → Allocation
  final_status cr ip info =
      let st : AllocationStatus = status_with_info info (record cr.status {
        ip = ip;
        config_map_ref = cr.spec.sinks.config_map;
        cluster_secret_ref = cr.spec.sinks.cluster_secret_labels;
      }) in
      record cr {
        status = record st {
          conditions = W.machinery.set_status_condition st.conditions (record {
            kind = "Ready";
            status = condition_true;
            reason = "Reconciled";
            message = "";
          });
        };
      }

  -- The part of `Reconcile` for a CR that is not being deleted.
  unfoldable pub reconcile_live : Allocation → Client → Exec W.State (Unit {0})
  reconcile_live found api = do
    cr ← ensure_finalizer found
    ip ← ensure_reservation api cr
    reconcile_dns_drift api cr ip
    info ← attempt (get_cluster_info W api cr.spec.name)
    publish_config_map cr ip (result_option info) cr.spec.sinks.config_map
    cr' ← publish_secret cr ip (result_option info) cr.spec.sinks.cluster_secret_labels
    attempt (W.update_status allocation (final_status cr' ip (result_option info)))
    pure tt

  -- The ConfigMap is deleted; an error of that is dropped.
  unfoldable pub withdraw_config_map : Option ConfigMapSink → Exec W.State (Unit {0})
  withdraw_config_map none = pure tt
  withdraw_config_map (some s) = do attempt (W.delete config_map (sink_name s)); pure tt

  unfoldable pub withdraw_secret : Option SecretObjectRef → Exec W.State (Unit {0})
  withdraw_secret none = pure tt
  withdraw_secret (some ref) = context "strip cluster secret" (strip_cluster_secret W ref)

  unfoldable pub release : Allocation → Client → Exec W.State (Unit {0})
  release cr api =
      if cr.spec.release_on_delete && not (cr.status.ip == "")
      then context "release IP"
          (release_ips W api cr.spec.network_key (record { ip = cr.status.ip }))
      else pure tt

  unfoldable pub clean_up : Allocation → Client → Exec W.State (Unit {0})
  clean_up cr api = do
    withdraw_config_map cr.spec.sinks.config_map
    withdraw_secret cr.spec.sinks.cluster_secret_labels
    release cr api
    W.update allocation (record cr {
      meta = record cr.meta {
        finalizers = W.machinery.remove_finalizer cr.meta.finalizers allocation_finalizer;
      };
    })
    pure tt

  -- `finalize`
  unfoldable pub finalize : Allocation → Client → Exec W.State (Unit {0})
  finalize cr api =
      if W.machinery.contains_finalizer cr.meta.finalizers allocation_finalizer
      then clean_up cr api
      else pure tt

  unfoldable pub reconcile_found : Allocation → Exec W.State (Unit {0})
  reconcile_found cr = do
    pc ← context "load provider config" (load_provider_config W cr.spec.provider_config_ref)
    api ← context "build clusterbook client" (new_clusterbook_client W pc)
    if cr.meta.deleting then finalize cr api else reconcile_live cr api

  unfoldable pub reconcile_get : Result Allocation → Exec W.State (Unit {0})
  reconcile_get (ok cr) = reconcile_found cr
  reconcile_get (err e) = if is_not_found e then pure tt else fail e

  -- `Reconcile`
  unfoldable pub reconcile : String → Exec W.State (Unit {0})
  reconcile name = do
    found ← attempt (reads (W.get allocation (cluster_scoped name)))
    reconcile_get found
