-- ===== src/Cluster/Reservation/Drift.antt =====
-- `reconcileDNSDrift` (controller/reconciler.go).
use clusterbook_operator.Prelude.{
  String, ◌≡◌, refl, ap, Bool, true, false, none, some, List, arith, if◌then◌else◌,
}
use clusterbook_operator.Prelude.Text.{contains}
use clusterbook_operator.Exec.{ok}
use clusterbook_operator.Api.Cluster.{Cluster}
use clusterbook_operator.World.{World}
use clusterbook_operator.World.Data.{IpInfo, ReserveRequest}
use clusterbook_operator.Client.{Client, get_ips}
use clusterbook_operator.Cluster.Reservation.{
  find_ip, drift_request, same_bool, reconcile_dns_drift,
}

drift_request-status :
    (name : String) (wanted : Bool) (e : IpInfo) (req : ReserveRequest)
    → drift_request name wanted (some e) ≡ some req
    → req.status ≡ (if wanted then "ASSIGNED:DNS" else "ASSIGNED")
unfolding drift_request
drift_request-status name wanted e req h = ground arith

agrees :
    (wanted : Bool)
    → same_bool (contains (if wanted then "ASSIGNED:DNS" else "ASSIGNED") "DNS") wanted ≡ true
unfolding same_bool contains
agrees true = refl
agrees false = refl

-- If an entry called for an update, an entry that holds the status that this update carried
-- calls for none.
pub drift_request-settled :
    (name : String) (wanted : Bool) (old new : IpInfo) (req : ReserveRequest)
    → drift_request name wanted (some old) ≡ some req
    → new.status ≡ req.status
    → drift_request name wanted (some new) ≡ none
unfolding drift_request
drift_request-settled name wanted old new req h set = ground (
  arith,
  agrees wanted,
  drift_request-status name wanted old req h,
  ap (λ (status : String). same_bool (contains status "DNS") wanted) set,
  ap (λ (status : String). same_bool (contains status "DNS") wanted)
      (drift_request-status name wanted old req h),
)

module _ (W : World) (api : Client) (cr : Cluster) (ip : String) where
  -- An IP that is not listed, or whose status agrees, is left alone: only the listing is read.
  pub reconcile_dns_drift-settled :
      (s t : W.State) (es : List IpInfo)
      → get_ips W api cr.spec.network_key s ≡ (ok es, t)
      → drift_request cr.spec.cluster_name cr.spec.create_dns (find_ip ip es) ≡ none
      → reconcile_dns_drift W api cr ip s ≡ (ok tt, t)
  unfolding reconcile_dns_drift
  reconcile_dns_drift-settled s t es listed settled = ground arith

  -- If an entry of the listing called for an update, and clusterbook now lists the cluster's IP
  -- with the status that this update carried, then reconcileDNSDrift only reads the listing and
  -- sends no update.
  pub reconcile_dns_drift-once :
      (s t : W.State) (after : List IpInfo) (old new : IpInfo) (req : ReserveRequest)
      → drift_request cr.spec.cluster_name cr.spec.create_dns (some old) ≡ some req
      → get_ips W api cr.spec.network_key s ≡ (ok after, t)
      → find_ip ip after ≡ some new
      → new.status ≡ req.status
      → reconcile_dns_drift W api cr ip s ≡ (ok tt, t)
  reconcile_dns_drift-once s t after old new req sent listed now holds =
      reconcile_dns_drift-settled s t after listed (
        rw now
          (drift_request-settled cr.spec.cluster_name cr.spec.create_dns old new req sent holds))
