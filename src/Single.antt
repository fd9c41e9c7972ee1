-- ===== src/Single.antt =====
-- The reservation of one IP, as the load balancer, allocation and vcluster reconcilers make it
-- (`ensureReservation` of controller/loadbalancer_reconciler.go, controller/allocation_reconciler.go
-- and controller/vcluster_reconciler.go).
pub mod Alike
pub mod Lifecycle
pub mod Contract
pub mod Kept
pub mod Retry
use clusterbook_operator.Prelude.{
  String, Bool, not, Option, none, some, List, [], ◌∷◌, ◌==◌, if◌then◌else◌,
}
use clusterbook_operator.Prelude.Number.{pos}
use clusterbook_operator.Exec.{Result, ok, err, message, Exec, pure, lift, context, ◌>>=◌}
use clusterbook_operator.World.{World}
use clusterbook_operator.World.Data.{IpInfo, ReserveRequest, ReserveResponse}
use clusterbook_operator.Client.{Client, get_ips, reserve_ips}
use clusterbook_operator.Cluster.Reservation.{find_reserved}

-- What a reservation is made from.
pub record Wish : Type 0 where
  pub status_ip : String
  pub network_key : String
  pub name : String
  pub create_dns : Bool

unfoldable pub single_request : Wish → ReserveRequest
single_request w = record {
  cluster = w.name;
  count = pos 1;
  ip = "";
  create_dns = w.create_dns;
  status = "";
}

-- `if len(resv.IPs) == 0 { … }; return resv.IPs[0], nil`
unfoldable pub first_ip : List String → Result String
first_ip [] = err (message "clusterbook returned no IPs")
first_ip (ip ∷ ips) = ok ip

module _ (W : World) (api : Client) (w : Wish) where
  unfoldable pub reserve_single : Exec W.State String
  reserve_single = do
    resv ← context "reserve IP" (reserve_ips W api w.network_key (single_request w))
    lift (first_ip resv.ips)

  unfoldable pub listed_single : Option String → Exec W.State String
  listed_single (some ip) = pure ip
  listed_single none = reserve_single

  -- The three layers: the status, the listing, a fresh reservation.
  unfoldable pub ensure_single : Exec W.State String
  ensure_single = if not (w.status_ip == "") then pure w.status_ip else do
    existing ← context "list IPs" (get_ips W api w.network_key)
    listed_single (find_reserved w.name existing)
