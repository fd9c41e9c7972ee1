-- ===== src/LoadBalancer/Reconcile.antt =====
-- `Reconcile` and `finalize` of `ClusterbookLoadBalancer` (controller/loadbalancer_reconciler.go).
pub mod Finalize
pub mod Release
pub mod PoolDeletion
use clusterbook_operator.Prelude.{
  String, ◌<>◌, Bool, not, ◌&&◌, Option, none, some, ◌==◌, default_to, if◌then◌else◌,
}
use clusterbook_operator.Exec.{
  Error, Result, ok, err, message, is_not_found, Exec, pure, fail, reads, attempt, context, ◌>>=◌,
  ◌>>◌,
}
use clusterbook_operator.Api.Meta.{ObjectMeta, Condition, condition_true}
use clusterbook_operator.Api.LoadBalancer.{
  LoadBalancer, LoadBalancerStatus, CiliumPoolTarget, ServiceObjectRef,
}
use clusterbook_operator.World.{World}
use clusterbook_operator.World.Data.{load_balancer, ip_pool, ClusterInfo}
use clusterbook_operator.Client.{Client, get_cluster_info, release_ips}
use clusterbook_operator.Shared.{cluster_scoped, load_provider_config, new_clusterbook_client}
use clusterbook_operator.Single.{Wish, ensure_single}
use clusterbook_operator.Cluster.Reconcile.{result_option}
use clusterbook_operator.LoadBalancer.Service.{patch_service_lb_ip, restore_service_lb_ip}
use clusterbook_operator.LoadBalancer.Pool.{upsert_cilium_pool}

abbrev pub lb_finalizer : String
lb_finalizer = "clusterbook.stuttgart-things.com/lb-finalizer"

-- What the mutations leave: the CR, the pool's name and the target Service.
pub record Published : Type 0 where
  pub cr : LoadBalancer
  pub pool_name : String
  pub target_service_ref : Option ServiceObjectRef

-- The two references exclude one another, and one must be there.
pub data Target : Type 0 where
  pool_target : CiliumPoolTarget → Target
  service_target : ServiceObjectRef → Target

-- The two checks of the spec.
unfoldable pub target_of : Option CiliumPoolTarget → Option ServiceObjectRef → Result Target
target_of none none = err (message "spec.ciliumPool or spec.serviceRef must be set")
target_of (some p) none = ok (pool_target p)
target_of none (some r) = ok (service_target r)
target_of (some p) (some r) =
    err (message "spec.ciliumPool and spec.serviceRef are mutually exclusive")

-- The wish behind a load balancer's reservation.
unfoldable pub wish : LoadBalancer → Wish
wish cr = record {
  status_ip = cr.status.ip;
  network_key = cr.spec.network_key;
  name = cr.spec.name;
  create_dns = cr.spec.create_dns;
}

unfoldable pub status_with_info : Option ClusterInfo → LoadBalancerStatus → LoadBalancerStatus
status_with_info none st = st
status_with_info (some info) st = record st { fqdn = info.fqdn; zone = info.zone }

module _ (W : World) where
  -- `ensureReservation`
  unfoldable pub ensure_reservation : Client → LoadBalancer → Exec W.State String
  ensure_reservation api cr = ensure_single W api (wish cr)

  unfoldable pub ensure_finalizer : LoadBalancer → Exec W.State LoadBalancer
  ensure_finalizer cr =
      if W.machinery.contains_finalizer cr.meta.finalizers lb_finalizer
      then pure cr
      else W.update load_balancer (record cr {
        meta = record cr.meta {
          finalizers = W.machinery.add_finalizer cr.meta.finalizers lb_finalizer;
        };
      })

  -- The switch over the two modes.
  unfoldable pub publish :
      LoadBalancer → String → Option ClusterInfo → Target → Exec W.State Published
  publish cr ip info (pool_target p) = do
    let pool_name = default_to (cr.spec.name <> "-pool") p.pool_name
    context "upsert cilium pool" (upsert_cilium_pool W cr p.service_selector pool_name ip info)
    pure (record { cr = cr; pool_name = pool_name; target_service_ref = none })
  publish cr ip info (service_target ref) = do
    cr' ← context "patch service loadBalancerIP" (patch_service_lb_ip W ref cr ip)
    pure (record { cr = cr'; pool_name = ""; target_service_ref = some ref })

  unfoldable pub final_status : Published → String → Option ClusterInfo → LoadBalancer
  final_status p ip info =
      let st : LoadBalancerStatus = status_with_info info (record (p.cr.status) {
        ip = ip;
        pool_name = p.pool_name;
        target_service_ref = p.target_service_ref;
      }) in
      record (p.cr) {
        status = record st {
          conditions = W.machinery.set_status_condition st.conditions (record {
            kind = "Ready";
            status = condition_true;
            reason = "Reconciled";
            message = "";
          });
        };
      }

  -- The part of `Reconcile` after the checks of the spec.
  unfoldable pub reconcile_target : LoadBalancer → Client → Target → Exec W.State (Unit {0})
  reconcile_target cr api target = do
    ip ← ensure_reservation api cr
    info ← attempt (get_cluster_info W api cr.spec.name)
    p ← publish cr ip (result_option info) target
    attempt (W.update_status load_balancer (final_status p ip (result_option info)))
    pure tt

  unfoldable pub reconcile_checked : LoadBalancer → Client → Result Target → Exec W.State (Unit {0})
  reconcile_checked cr api (ok target) = reconcile_target cr api target
  reconcile_checked cr api (err e) = fail e

  -- The part of `Reconcile` for a CR that is not being deleted.
  unfoldable pub reconcile_live : LoadBalancer → Client → Exec W.State (Unit {0})
  reconcile_live found api = do
    cr ← ensure_finalizer found
    reconcile_checked cr api (target_of cr.spec.cilium_pool cr.spec.service_ref)

  -- The switch of `finalize`; an error of the pool's deletion is dropped.
  unfoldable pub withdraw : Option ServiceObjectRef → LoadBalancer → Exec W.State (Unit {0})
  withdraw (some ref) cr = context "restore service loadBalancerIP" (restore_service_lb_ip W ref cr)
  withdraw none cr =
      if cr.status.pool_name == ""
      then pure tt
      else (attempt (W.delete ip_pool (cluster_scoped cr.status.pool_name)) >> pure tt)

  unfoldable pub release : LoadBalancer → Client → Exec W.State (Unit {0})
  release cr api =
      if cr.spec.release_on_delete && not (cr.status.ip == "")
      then context "release IP"
          (release_ips W api cr.spec.network_key (record { ip = cr.status.ip }))
      else pure tt

  unfoldable pub clean_up : LoadBalancer → Client → Exec W.State (Unit {0})
  clean_up cr api = do
    withdraw cr.spec.service_ref cr
    release cr api
    W.update load_balancer (record cr {
      meta = record cr.meta {
        finalizers = W.machinery.remove_finalizer cr.meta.finalizers lb_finalizer;
      };
    })
    pure tt

  -- `finalize`
  unfoldable pub finalize : LoadBalancer → Client → Exec W.State (Unit {0})
  finalize cr api =
      if W.machinery.contains_finalizer cr.meta.finalizers lb_finalizer
      then clean_up cr api
      else pure tt

  unfoldable pub reconcile_found : LoadBalancer → Exec W.State (Unit {0})
  reconcile_found cr = do
    pc ← context "load provider config" (load_provider_config W cr.spec.provider_config_ref)
    api ← context "build clusterbook client" (new_clusterbook_client W pc)
    if cr.meta.deleting then finalize cr api else reconcile_live cr api

  unfoldable pub reconcile_get : Result LoadBalancer → Exec W.State (Unit {0})
  reconcile_get (ok cr) = reconcile_found cr
  reconcile_get (err e) = if is_not_found e then pure tt else fail e

  -- `Reconcile`
  unfoldable pub reconcile : String → Exec W.State (Unit {0})
  reconcile name = do
    found ← attempt (reads (W.get load_balancer (cluster_scoped name)))
    reconcile_get found
