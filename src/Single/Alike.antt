-- ===== src/Single/Alike.antt =====
-- The cluster's reservation beside the reservation of one IP (controller/reconciler.go,
-- controller/loadbalancer_reconciler.go).
use clusterbook_operator.Prelude.{
  String, ◌≡◌, refl, ap, ◌∙◌, Option, none, some, List, [], ◌∷◌, ◌==◌, Bool-cases, inl, inr,
}
use clusterbook_operator.Exec.{Result, ok, err, Exec, continue, lift, context}
use clusterbook_operator.Api.Cluster.{Cluster, LbRange}
use clusterbook_operator.World.{World}
use clusterbook_operator.World.Data.{ReserveResponse, ReserveRequest, IpInfo}
use clusterbook_operator.Client.{Client, reserve_ips, get_ips}
use clusterbook_operator.Cluster.Metadata.{Allocated}
use clusterbook_operator.Cluster.Reservation.{
  ensure_reservation, reserve_fresh, after_listing, reserve_request, reserve_count, first_reserved,
  reserved, recovered, from_status, find_reserved,
}
use clusterbook_operator.Single.{
  Wish, single_request, first_ip, reserve_single, listed_single, ensure_single,
}

-- What a cluster's reservation is made from.
abbrev pub cluster_wish : Cluster → Wish
cluster_wish cr = record {
  status_ip = cr.status.ip;
  network_key = cr.spec.network_key;
  name = cr.spec.cluster_name;
  create_dns = cr.spec.create_dns;
}

abbrev ip_of_result : Result Allocated → Result String
ip_of_result (ok a) = ok a.ip
ip_of_result (err e) = err e

-- A reservation of which only the IP is looked at.
abbrev pub ip_of {ℓ} : {S : Type ℓ} → Exec S Allocated → Exec S String
ip_of m s = (ip_of_result (m s).0, (m s).1)

ip_of-first_reserved :
    (range : Option LbRange) (ips : List String)
    → range ≡ none
    → ip_of_result (first_reserved ips range) ≡ first_ip ips
unfolding first_reserved reserved first_ip
ip_of-first_reserved none [] h = refl
ip_of-first_reserved none (ip ∷ ips) h = refl
ip_of-first_reserved (some r) ips h = cc

recovered-ip : (range : Option LbRange) (ip : String) → range ≡ none → (recovered ip range).ip ≡ ip
unfolding recovered
recovered-ip none ip h = refl
recovered-ip (some r) ip h = cc

module _ (W : World) (api : Client) (cr : Cluster) (range : cr.spec.lb_range ≡ none) where
  reserve_request-single : reserve_request cr ≡ single_request (cluster_wish cr)
  unfolding reserve_request reserve_count single_request
  reserve_request-single = λ i. record {
    cluster = cr.spec.cluster_name;
    count = reserve_count (range i);
    ip = "";
    create_dns = cr.spec.create_dns;
    status = "";
  }

  answered :
      (r : Result ReserveResponse) (t : W.State)
      → ip_of
          (continue r λ (resv : ReserveResponse). lift (first_reserved resv.ips cr.spec.lb_range))
          t
        ≡ continue r (λ (resv : ReserveResponse). lift (first_ip resv.ips)) t
  answered (ok resv) t = λ i. (ip_of-first_reserved cr.spec.lb_range resv.ips range i, t)
  answered (err e) t = refl

  reserve_fresh-single :
      (s : W.State) → ip_of (reserve_fresh W api cr) s ≡ reserve_single W api (cluster_wish cr) s
  unfolding reserve_fresh reserve_single
  reserve_fresh-single s =
      let sent : ReserveRequest → Result ReserveResponse × W.State =
        λ req. context "reserve IP" (reserve_ips W api cr.spec.network_key req) s in
      answered (sent (reserve_request cr)).0 (sent (reserve_request cr)).1
      ∙ ap
          (λ req.
            continue (sent req).0 (λ (resv : ReserveResponse). lift (first_ip resv.ips))
              (sent req).1)
          reserve_request-single

  after_listing-single :
      (found : Option String) (s : W.State)
      → ip_of (after_listing W api cr found) s ≡ listed_single W api (cluster_wish cr) found s
  unfolding after_listing listed_single
  after_listing-single (some ip) s = λ i. (ok (recovered-ip cr.spec.lb_range ip range i), s)
  after_listing-single none s = reserve_fresh-single s

  listed :
      (r : Result (List IpInfo)) (t : W.State)
      → ip_of
          (continue r
            λ (es : List IpInfo). after_listing W api cr (find_reserved cr.spec.cluster_name es))
          t
        ≡ continue r
            (λ (es : List IpInfo).
              listed_single W api (cluster_wish cr) (find_reserved cr.spec.cluster_name es))
            t
  listed (ok es) t = after_listing-single (find_reserved cr.spec.cluster_name es) t
  listed (err e) t = refl

  -- For a cluster without a range, ensureReservation gives the same IP or error, in the same
  -- state of the world, as the reservation of one IP that the other reconcilers make, for the
  -- cluster's name, network and DNS wish.
  pub ensure_reservation-single :
      (s : W.State)
      → ip_of (ensure_reservation W api cr) s ≡ ensure_single W api (cluster_wish cr) s
  unfolding ensure_reservation ensure_single from_status
  ensure_reservation-single s = elim (Bool-cases (cr.status.ip == "")) [
    | inl e ↦
        let answer = context "list IPs" (get_ips W api cr.spec.network_key) s in
        rw e (listed answer.0 answer.1)
    | inr e ↦ rw e refl
  ]
