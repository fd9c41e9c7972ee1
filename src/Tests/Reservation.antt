-- ===== src/Tests/Reservation.antt =====
-- Reservations in the concrete world, whose clusterbook lists one entry, of the cluster prod.
use clusterbook_operator.Api.Cluster.{Cluster, LbRange}
use clusterbook_operator.Single.Alike.{ip_of, cluster_wish, ensure_reservation-single}
use clusterbook_operator.Single.{ensure_single}
use clusterbook_operator.Prelude.{true, none, some, String, List, [], ◌∷◌, ◌≡◌, refl, arith}
use clusterbook_operator.Prelude.Text.{contains}
use clusterbook_operator.Prelude.Number.{pos}
use clusterbook_operator.Exec.{ok}
use clusterbook_operator.World.Data.{
  ReserveRequest, ReserveResponse, HttpResponse, method_post, IpInfo,
}
use clusterbook_operator.Cluster.Metadata.{Allocated}
use clusterbook_operator.Cluster.Reservation.Range.{ends, range_request, reserve_fresh-range}
use clusterbook_operator.Client.{
  Client, get_ips, exchange, only_ok, reserve_ips, ok_or_created, network_url,
}
use clusterbook_operator.Cluster.Reservation.{
  ensure_reservation, reserve_count, drift_request, reconcile_dns_drift, find_ip, same_bool,
  reserve_fresh, reserve_request, first_reserved, reserved, reserved_range, last_of,
}
use clusterbook_operator.Cluster.Reservation.Drift.{reconcile_dns_drift-once}
use clusterbook_operator.Tests.Fixture.{prod, prod_entry, edge_range}
use clusterbook_operator.Tests.Server.{world, store, Store}

abbrev api : Client
api = record { base_url = "https://clusterbook"; tls = none }

-- The store after the listing.
abbrev listed_store : Store
listed_store = (get_ips (world true) api "10.0.0" store).1

-- A cluster with a range of two IPs, and what is reserved for it.
abbrev two_ips : LbRange
two_ips = record edge_range { count = pos 2 }

abbrev ranged : Cluster
ranged = record prod { spec = record prod.spec { lb_range = some two_ips } }

abbrev given : Allocated
given = record { ip = "10.0.0.7"; lb_range_start = "10.0.0.8"; lb_range_stop = "10.0.0.9" }

abbrev given_store : Store
given_store = (reserve_fresh (world true) api ranged store).1

reserve_fresh-range_example :
    (body : String) × (resp : HttpResponse) × (resv : ReserveResponse) × (rest : List String)
    × ((world true).codec.encode_reserve (range_request ranged 2) ≡ ok body)
    × ((world true).send api.tls
          (record {
            method = method_post;
            url = network_url (world true) api "10.0.0" "reserve";
            json = true;
            body = body;
          })
          store
        ≡ (ok resp, given_store))
    × ((world true).codec.decode_reserve resp.body ≡ ok resv)
    × (resv.ips ≡ "10.0.0.7" ∷ rest)
    × ("10.0.0.8" ≡ (ends rest).0)
    × ("10.0.0.9" ≡ (ends rest).1)
unfolding reserve_fresh reserve_request reserve_count first_reserved reserved reserved_range last_of
    reserve_ips exchange ok_or_created
reserve_fresh-range_example =
    reserve_fresh-range (world true) api ranged two_ips 2 given store given_store refl refl refl
      (omega arith) refl

-- The update that creates the cluster's record, and the entry that holds its status.
abbrev dns_request : ReserveRequest
dns_request = record {
  cluster = "prod";
  count = pos 0;
  ip = "";
  create_dns = true;
  status = "ASSIGNED:DNS";
}

abbrev stale_entry : IpInfo
stale_entry = record prod_entry { status = "ASSIGNED" }

reconcile_dns_drift-once_example :
    reconcile_dns_drift (world true) api prod "10.0.0.7" store ≡ (ok tt, listed_store)
unfolding drift_request same_bool contains find_ip get_ips exchange only_ok
reconcile_dns_drift-once_example =
    reconcile_dns_drift-once (world true) api prod "10.0.0.7" store listed_store (prod_entry ∷ [])
      stale_entry prod_entry dns_request refl refl refl refl

-- The cluster without a range.
abbrev plain : Cluster
plain = record prod { spec = record prod.spec { lb_range = none } }

ensure_reservation-single_example :
    ip_of (ensure_reservation (world true) api plain) store
    ≡ ensure_single (world true) api (cluster_wish plain) store
ensure_reservation-single_example = ensure_reservation-single (world true) api plain refl store
