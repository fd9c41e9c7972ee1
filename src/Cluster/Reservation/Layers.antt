-- ===== src/Cluster/Reservation/Layers.antt =====
-- The three layers of `ensureReservation`: the status, the listing, a fresh reservation.
use clusterbook_operator.Prelude.{
  String, ◌≡◌, refl, ap, ℕ, ◌+◌, ◌^◌, ◌<◌, Option, none, some, List, [], ◌∷◌, arith, ◌==◌, eq_iff,
  Bool-cases, inl, inr,
}
use clusterbook_operator.Prelude.Number.{pos, wrap_int}
use clusterbook_operator.Exec.{Result, ok, context, lift}
use clusterbook_operator.Exec.Inversion.{>>=-eq-ok}
use clusterbook_operator.Api.Cluster.{Cluster, LbRange}
use clusterbook_operator.World.{World}
use clusterbook_operator.World.Data.{IpInfo, ReserveResponse}
use clusterbook_operator.Client.{Client, get_ips, reserve_ips}
use clusterbook_operator.Cluster.Metadata.{Allocated}
use clusterbook_operator.Cluster.Reservation.{
  from_status, resolved_lb_start, resolved_lb_stop, find_reserved, recovered, reserve_fresh,
  after_listing, reserve_request, reserve_count, reserved, reserved_range, first_reserved,
  ensure_reservation,
}

-- The admission rule of `lbRange`, as far as it matters here: no stop without a start.
abbrev pub IsRange : Option LbRange → Type 0
IsRange none = Unit
IsRange (some r) = r.start ≡ "" → r.stop ≡ ""

-- The CR with the allocation written to its status, as a reconcile leaves it.
abbrev pub with_allocation : Cluster → Allocated → Cluster
with_allocation cr a = record cr {
  status = record cr.status {
    ip = a.ip;
    lb_range_start = a.lb_range_start;
    lb_range_stop = a.lb_range_stop;
  };
}

-- The allocation that the next reconcile reads back from a status that holds `a`.
abbrev pub resumed : Option LbRange → Allocated → Allocated
resumed range a = record {
  ip = a.ip;
  lb_range_start = resolved_lb_start range a.lb_range_start;
  lb_range_stop = resolved_lb_stop range a.lb_range_stop;
}

resumed-resumed :
    (range : Option LbRange) (a : Allocated) → resumed range (resumed range a) ≡ resumed range a
unfolding resolved_lb_start resolved_lb_stop
resumed-resumed none a = refl
resumed-resumed (some r) a = ground arith

resumed-recovered :
    (range : Option LbRange) (ip : String)
    → IsRange range
    → resumed range (recovered ip range) ≡ recovered ip range
unfolding resolved_lb_start resolved_lb_stop recovered
resumed-recovered none ip h = refl
resumed-recovered (some r) ip h = ground (arith, eq_iff r.start "", eq_iff r.stop "", h)

resumed-reserved :
    (range : Option LbRange) (ip : String) (rest : List String)
    → IsRange range
    → resumed range (reserved ip rest range) ≡ reserved ip rest range
unfolding resolved_lb_start resolved_lb_stop reserved reserved_range
resumed-reserved none ip rest h = refl
resumed-reserved (some r) ip [] h = ground (arith, eq_iff r.start "", eq_iff r.stop "", h)
resumed-reserved (some r) ip (x ∷ xs) h = ground (arith, eq_iff r.start "", eq_iff r.stop "", h)

resumed-first_reserved :
    (range : Option LbRange) (ips : List String) (a : Allocated)
    → IsRange range
    → first_reserved ips range ≡ ok a
    → resumed range a ≡ a
unfolding first_reserved
resumed-first_reserved range [] a h e = cc
resumed-first_reserved range (ip ∷ rest) a h e = ground (arith, resumed-reserved range ip rest h)

module _ (W : World) (api : Client) (cr : Cluster) (a : Allocated)
    (range : IsRange cr.spec.lb_range) where
  reserve_fresh-resumed :
      (s t : W.State) → reserve_fresh W api cr s ≡ (ok a, t) → resumed cr.spec.lb_range a ≡ a
  unfolding reserve_fresh
  reserve_fresh-resumed s t h =
      let (resv, u, sent, rest) =
        >>=-eq-ok
          (context "reserve IP" (reserve_ips W api cr.spec.network_key (reserve_request cr)))
          (λ (resv : ReserveResponse). lift (first_reserved resv.ips cr.spec.lb_range)) s h in
      resumed-first_reserved cr.spec.lb_range resv.ips a range
        (ap (λ (p : Result Allocated × W.State). p.0) rest)

  after_listing-resumed :
      (found : Option String) (s t : W.State)
      → after_listing W api cr found s ≡ (ok a, t)
      → resumed cr.spec.lb_range a ≡ a
  unfolding after_listing
  after_listing-resumed (some ip) s t h =
      ground (arith, resumed-recovered cr.spec.lb_range ip range)
  after_listing-resumed none s t h = reserve_fresh-resumed s t h

module _ (W : World) (api : Client) (cr : Cluster) (s : W.State) where
  -- If the status holds no IP and clusterbook's listing has an entry of the cluster,
  -- ensureReservation takes over the IP of the first such entry, with the range that the CR
  -- pins, and does nothing after the listing: it reserves nothing.
  pub ensure_reservation-listed :
      (es : List IpInfo) (t : W.State) (ip : String)
      → cr.status.ip ≡ ""
      → get_ips W api cr.spec.network_key s ≡ (ok es, t)
      → find_reserved cr.spec.cluster_name es ≡ some ip
      → ensure_reservation W api cr s ≡ (ok (recovered ip cr.spec.lb_range), t)
  unfolding ensure_reservation
  ensure_reservation-listed es t ip h listed found = ground (arith, eq_iff cr.status.ip "")

  -- Whichever layer answers, the status, the listing or a fresh reservation: if
  -- ensureReservation succeeds with an allocation, and the CR pins no range stop without a
  -- start, then a CR whose status holds that allocation yields the same IP and the same range
  -- again.
  pub from_status-ensure_reservation :
      (a : Allocated) (t : W.State)
      → IsRange cr.spec.lb_range
      → ensure_reservation W api cr s ≡ (ok a, t)
      → from_status (with_allocation cr a) ≡ a
  unfolding ensure_reservation from_status
  from_status-ensure_reservation a t range h = elim (Bool-cases (cr.status.ip == "")) [
    | inl e ↦
        let (es, u, listed, rest) =
          >>=-eq-ok (context "list IPs" (get_ips W api cr.spec.network_key))
            (λ (es : List IpInfo). after_listing W api cr (find_reserved cr.spec.cluster_name es)) s
            (rw e at h) in
        after_listing-resumed W api cr a range (find_reserved cr.spec.cluster_name es) u t rest
    | inr e ↦
        let e' : ◌≡◌ {A = Result Allocated × W.State} (ok (from_status cr), s) (ok a, t) =
          rw e at h in
        let status : Allocated = record {
          ip = cr.status.ip;
          lb_range_start = cr.status.lb_range_start;
          lb_range_stop = cr.status.lb_range_stop;
        } in
        ground (arith, resumed-resumed cr.spec.lb_range status)
  ]

-- A range of n IPs makes the request one for n + 1 IPs, as long as n + 1 is below 2^63.
pub reserve_count-range :
    (r : LbRange) (n : ℕ) → r.count ≡ pos n → n + 1 < 2 ^ 63 → reserve_count (some r) ≡ pos (n + 1)
unfolding reserve_count wrap_int
reserve_count-range r n h small = rw h (ground arith)
