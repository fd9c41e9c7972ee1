-- ===== src/Cluster/Lifecycle/Recovered.antt =====
-- A counted range after the IP was found in the listing (`ensureReservation` of
-- controller/reconciler.go).
use clusterbook_operator.Prelude.{
  String, ◌≡◌, ◌≢◌, refl, sym, ap, ◌∙◌, Option, some, none, List, eq_iff,
}
use clusterbook_operator.Prelude.Reachable.{Reach}
use clusterbook_operator.Exec.{Result, ok}
use clusterbook_operator.Exec.Inversion.{result_or}
use clusterbook_operator.Api.Cluster.{Cluster, LbRange}
use clusterbook_operator.World.{World}
use clusterbook_operator.World.Data.{IpInfo, ClusterInfo}
use clusterbook_operator.Client.{Client, get_ips}
use clusterbook_operator.Cluster.Metadata.{Allocated}
use clusterbook_operator.Cluster.Reservation.{
  find_reserved, recovered, after_listing, ensure_reservation,
}
use clusterbook_operator.Cluster.Reconcile.{Outcome, allocate, final_status}
use clusterbook_operator.Cluster.Lifecycle.{Step, allocate_from-reserved}
use clusterbook_operator.Cluster.Lifecycle.Allocation.{Asks, held, Reach-held}

-- An IP without a range.
abbrev pub alone : String → Allocated
alone ip = record { ip = ip; lb_range_start = ""; lb_range_stop = "" }

recovered-alone : (r : LbRange) (ip : String) → r.start ≡ "" → recovered ip (some r) ≡ alone ip
unfolding recovered
recovered-alone r ip unpinned = rw ((eq_iff r.start "").1 unpinned) refl

module _ (W : World) (api : Client) (cr : Cluster) where
  ensure_reservation-recovered :
      (r : LbRange) (ip : String) (entries : List IpInfo) (alloc : Allocated) (s t u : W.State)
      → cr.spec.lb_range ≡ some r
      → r.start ≡ ""
      → cr.status.ip ≡ ""
      → get_ips W api cr.spec.network_key s ≡ (ok entries, t)
      → find_reserved cr.spec.cluster_name entries ≡ some ip
      → ensure_reservation W api cr s ≡ (ok alloc, u)
      → alloc ≡ alone ip
  unfolding ensure_reservation after_listing
  ensure_reservation-recovered r ip entries alloc s t u has unpinned fresh listed found h =
      sym (
        ap (λ (p : Result Allocated × W.State). result_or alloc p.0)
          (rw ((eq_iff cr.status.ip "").1 fresh, listed, found) at h))
      ∙ ap (recovered ip) has
      ∙ recovered-alone r ip unpinned

abbrev client_or : Client → Option Client → Client
client_or d none = d
client_or d (some c) = c

module _ (W : World) where
  -- A cluster off the registration-only path has a range that pins neither start nor stop, and
  -- an empty IP in its status. If the listing can be read and has an IP for the cluster's name
  -- that is not empty, and its allocation succeeds, then the status that the reconcile writes
  -- holds that IP and an empty range, whatever number of IPs the range asks for, and so does
  -- every later one, through any sequence of edits and successful reconciles none of which
  -- starts from a CR on the registration-only path or with another spec.lbRange.
  pub Reach-recovered :
      (c d : Cluster) (api : Client) (r : LbRange) (ip : String) (entries : List IpInfo)
      (alloc : Allocated) (info : Option ClusterInfo) (o : Outcome) (s t u : W.State)
      → Asks (some r) c
      → r.start ≡ ""
      → r.stop ≡ ""
      → c.status.ip ≡ ""
      → get_ips W api c.spec.network_key s ≡ (ok entries, t)
      → find_reserved c.spec.cluster_name entries ≡ some ip
      → ip ≢ ""
      → allocate W c (some api) s ≡ (ok (alloc, info), u)
      → Reach (Step W) (Asks (some r)) (final_status W o alloc info) d
      → held d ≡ alone ip
  unfolding allocate
  Reach-recovered c d api r ip entries alloc info o s t u (reserves, asked) start stop fresh listed
        found n h path =
      let (client, v, same, reserved) =
        allocate_from-reserved W (some api) c alloc info s u (rw reserves at h) in
      let same_api : client ≡ api = ap (λ x. client_or api x) (sym same) in
      let given : alloc ≡ alone ip =
        ensure_reservation-recovered W api c r ip entries alloc s t v asked start fresh listed found
          (rw same_api at reserved) in
      Reach-held W (some r) c d (some api) alloc info o s u (λ _. stop) (reserves, asked) h
        (λ e. n (sym (ap (λ (a : Allocated). a.ip) given) ∙ e)) path
      ∙ given
