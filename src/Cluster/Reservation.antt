-- ===== src/Cluster/Reservation.antt =====
-- The reservation of a cluster's IP and load balancer range, and the drift of its DNS record
-- (controller/reconciler.go).
pub mod Layers
pub mod Range
pub mod Drift
use clusterbook_operator.Prelude.{
  String, ◌+◌, Bool, true, not, ◌&&◌, Option, none, some, List, [], ◌∷◌, ◌==◌, eqb, if◌then◌else◌,
}
use clusterbook_operator.Prelude.Text.{contains}
use clusterbook_operator.Prelude.Number.{ℤ, pos, negsuc, wrap_int}
use clusterbook_operator.Exec.{
  Result, ok, err, message, Exec, pure, fail, lift, context, ◌>>=◌, ◌>>◌,
}
use clusterbook_operator.Api.Cluster.{Cluster, LbRange}
use clusterbook_operator.World.{World}
use clusterbook_operator.World.Data.{IpInfo, ReserveRequest, ReserveResponse}
use clusterbook_operator.Client.{Client, get_ips, reserve_ips, update_ip}
use clusterbook_operator.Cluster.Metadata.{Allocated}

-- `isRegistrationOnly`
unfoldable pub is_registration_only : Cluster → Bool
is_registration_only cr =
    if cr.spec.skip_reservation
    then true
    else cr.spec.cluster_type == "kind" && cr.spec.network_key == ""

-- The range that `registrationOnlyAllocation` copies.
unfoldable pub pinned_range : Option LbRange → Allocated
pinned_range none = record { ip = ""; lb_range_start = ""; lb_range_stop = "" }
pinned_range (some r) = record { ip = ""; lb_range_start = r.start; lb_range_stop = r.stop }

-- `registrationOnlyAllocation`
unfoldable pub registration_only_allocation : Cluster → Allocated
registration_only_allocation cr = pinned_range cr.spec.lb_range

-- `resolvedLBStart`
unfoldable pub resolved_lb_start : Option LbRange → String → String
resolved_lb_start none status = ""
resolved_lb_start (some r) status = if not (r.start == "") then r.start else status

-- `resolvedLBStop`
unfoldable pub resolved_lb_stop : Option LbRange → String → String
resolved_lb_stop none status = ""
resolved_lb_stop (some r) status = if not (r.stop == "") then r.stop else status

-- The loop over the listing: the IP of the first entry of the cluster.
unfoldable pub find_reserved : String → List IpInfo → Option String
find_reserved name [] = none
find_reserved name (e ∷ es) = if e.cluster == name then some e.ip else find_reserved name es

-- The allocation from a listed IP: a pinned range is taken from the spec.
unfoldable pub recovered : String → Option LbRange → Allocated
recovered ip none = record { ip = ip; lb_range_start = ""; lb_range_stop = "" }
recovered ip (some r) =
    if not (r.start == "")
    then record { ip = ip; lb_range_start = r.start; lb_range_stop = r.stop }
    else record { ip = ip; lb_range_start = ""; lb_range_stop = "" }

-- How many IPs are asked for: one, and those of the range, in 64-bit arithmetic.
unfoldable pub reserve_count : Option LbRange → ℤ
reserve_count none = pos 1
reserve_count (some r) = elim r.count [
  | pos n ↦ if eqb n 0 then pos 1 else wrap_int (1 + n)
  | negsuc n ↦ pos 1
]

unfoldable pub last_of : String → List String → String
last_of x [] = x
last_of x (y ∷ ys) = last_of y ys

-- The range among the IPs after the first.
unfoldable pub reserved_range : String → List String → Allocated
reserved_range ip [] = record { ip = ip; lb_range_start = ""; lb_range_stop = "" }
reserved_range ip (x ∷ xs) = record { ip = ip; lb_range_start = x; lb_range_stop = last_of x xs }

-- The allocation from a fresh reservation of `ip` and the IPs `rest`.
unfoldable pub reserved : String → List String → Option LbRange → Allocated
reserved ip rest none = record { ip = ip; lb_range_start = ""; lb_range_stop = "" }
reserved ip rest (some r) =
    if not (r.start == "")
    then record { ip = ip; lb_range_start = r.start; lb_range_stop = r.stop }
    else reserved_range ip rest

-- The test after `ReserveIPs`.
unfoldable pub first_reserved : List String → Option LbRange → Result Allocated
first_reserved [] range = err (message "clusterbook returned no IPs")
first_reserved (ip ∷ rest) range = ok (reserved ip rest range)

-- The allocation that `status` already holds.
unfoldable pub from_status : Cluster → Allocated
from_status cr = record {
  ip = cr.status.ip;
  lb_range_start = resolved_lb_start cr.spec.lb_range cr.status.lb_range_start;
  lb_range_stop = resolved_lb_stop cr.spec.lb_range cr.status.lb_range_stop;
}

-- `ReserveRequest` of a cluster's first reservation.
unfoldable pub reserve_request : Cluster → ReserveRequest
reserve_request cr = record {
  cluster = cr.spec.cluster_name;
  count = reserve_count cr.spec.lb_range;
  ip = "";
  create_dns = cr.spec.create_dns;
  status = "";
}

-- The first entry of an IP, `for … { if entry.IP != ip { continue } … }`.
unfoldable pub find_ip : String → List IpInfo → Option IpInfo
find_ip ip [] = none
find_ip ip (e ∷ es) = if e.ip == ip then some e else find_ip ip es

unfoldable pub same_bool : Bool → Bool → Bool
same_bool a b = if a then b else not b

-- The request that brings the DNS record of a listed IP in line, if it is not.
unfoldable pub drift_request : String → Bool → Option IpInfo → Option ReserveRequest
drift_request name wanted none = none
drift_request name wanted (some e) =
    if same_bool (contains e.status "DNS") wanted
    then none
    else some (record {
      cluster = name;
      count = pos 0;
      ip = "";
      create_dns = wanted;
      status = if wanted then "ASSIGNED:DNS" else "ASSIGNED";
    })

module _ (W : World) (api : Client) where
  unfoldable pub reserve_fresh : Cluster → Exec W.State Allocated
  reserve_fresh cr = do
    resv ← context "reserve IP" (reserve_ips W api cr.spec.network_key (reserve_request cr))
    lift (first_reserved resv.ips cr.spec.lb_range)

  unfoldable pub after_listing : Cluster → Option String → Exec W.State Allocated
  after_listing cr (some ip) = pure (recovered ip cr.spec.lb_range)
  after_listing cr none = reserve_fresh cr

  -- `ensureReservation`
  unfoldable pub ensure_reservation : Cluster → Exec W.State Allocated
  unfolding reserve_fresh after_listing
  ensure_reservation cr = if not (cr.status.ip == "") then pure (from_status cr) else do
    existing ← context "list IPs" (get_ips W api cr.spec.network_key)
    after_listing cr (find_reserved cr.spec.cluster_name existing)

  unfoldable pub send_update : String → String → Option ReserveRequest → Exec W.State (Unit {0})
  send_update network_key ip none = pure tt
  send_update network_key ip (some req) = context "update IP" (update_ip W api network_key ip req)

  -- `reconcileDNSDrift`
  unfoldable pub reconcile_dns_drift : Cluster → String → Exec W.State (Unit {0})
  unfolding send_update
  reconcile_dns_drift cr ip = do
    ips ← context "list IPs" (get_ips W api cr.spec.network_key)
    send_update cr.spec.network_key ip
        (drift_request cr.spec.cluster_name cr.spec.create_dns (find_ip ip ips))
