-- ===== src/Cluster/Reservation/Range.antt =====
-- A fresh reservation of an IP and a range (`ensureReservation` of controller/reconciler.go).
use clusterbook_operator.Prelude.{
  String, ◌≡◌, refl, sym, ap, ◌∙◌, ℕ, ◌+◌, ◌^◌, ◌<◌, true, some, List, [], ◌∷◌, eq_iff,
}
use clusterbook_operator.Prelude.Number.{pos}
use clusterbook_operator.Exec.{Result, ok, Exec, context, lift}
use clusterbook_operator.Exec.Inversion.{>>=-eq-ok, context-eq-ok, result_or}
use clusterbook_operator.Api.Cluster.{Cluster, LbRange}
use clusterbook_operator.World.{World}
use clusterbook_operator.World.Data.{ReserveRequest, ReserveResponse, HttpResponse, method_post}
use clusterbook_operator.Client.{Client, reserve_ips, network_url}
use clusterbook_operator.Client.Requests.{reserve_ips-sent}
use clusterbook_operator.Cluster.Metadata.{Allocated}
use clusterbook_operator.Cluster.Reservation.{
  reserve_fresh, reserve_request, reserved, reserved_range, last_of, first_reserved,
}
use clusterbook_operator.Cluster.Reservation.Layers.{reserve_count-range}

-- The first and the last of a list.
abbrev pub ends : List String → String × String
ends [] = ("", "")
ends (x ∷ []) = (x, x)
ends (x ∷ y ∷ ys) = (x, (ends (y ∷ ys)).1)

-- What is asked for a cluster with a range of `n` IPs.
abbrev pub range_request : Cluster → ℕ → ReserveRequest
range_request cr n = record {
  cluster = cr.spec.cluster_name;
  count = pos (n + 1);
  ip = "";
  create_dns = cr.spec.create_dns;
  status = "";
}

reserved_range-ends :
    (ip : String) (rest : List String)
    → ((reserved_range ip rest).ip ≡ ip)
      × ((reserved_range ip rest).lb_range_start ≡ (ends rest).0)
      × ((reserved_range ip rest).lb_range_stop ≡ (ends rest).1)
unfolding reserved_range last_of
reserved_range-ends ip [] = (refl, refl, refl)
reserved_range-ends ip (x ∷ []) = (refl, refl, refl)
reserved_range-ends ip (x ∷ y ∷ ys) =
    let (_, _, stop) = reserved_range-ends ip (y ∷ ys) in (refl, refl, stop)

first_reserved-ends :
    (r : LbRange) (ips : List String) (a : Allocated)
    → r.start ≡ ""
    → first_reserved ips (some r) ≡ ok a
    → (rest : List String) × (ips ≡ a.ip ∷ rest)
      × (a.lb_range_start ≡ (ends rest).0)
      × (a.lb_range_stop ≡ (ends rest).1)
unfolding first_reserved reserved
first_reserved-ends r [] a unpinned h = cc
first_reserved-ends r (ip ∷ rest) a unpinned h =
    let same : reserved_range ip rest ≡ a =
      ap (result_or a) (rw ((eq_iff r.start "").1 unpinned) at h) in
    let (first, start, stop) = reserved_range-ends ip rest in
    (
      rest,
      sym (ap (λ (x : String). x ∷ rest) first) ∙ ap (λ (x : Allocated). x.ip ∷ rest) same,
      sym (ap (λ (x : Allocated). x.lb_range_start) same) ∙ start,
      sym (ap (λ (x : Allocated). x.lb_range_stop) same) ∙ stop,
    )

module _ (W : World) (api : Client) (cr : Cluster) where
  reserve_request-range :
      (r : LbRange) (n : ℕ)
      → cr.spec.lb_range ≡ some r
      → r.count ≡ pos n
      → n + 1 < 2 ^ 63
      → reserve_request cr ≡ range_request cr n
  unfolding reserve_request
  reserve_request-range r n has count small = rw (has, reserve_count-range r n count small) refl

  -- If a fresh reservation succeeds for a cluster whose range pins no start and counts n IPs,
  -- with n + 1 below 2^63, the request that was sent to the network's reserve URL asks for n +
  -- 1 IPs, and of the IPs that the answer decodes to the cluster gets the first one, the first
  -- of the rest as its range's start and the last of the rest as its stop, both empty where
  -- there is no rest.
  pub reserve_fresh-range :
      (r : LbRange) (n : ℕ) (a : Allocated) (s t : W.State)
      → cr.spec.lb_range ≡ some r
      → r.start ≡ ""
      → r.count ≡ pos n
      → n + 1 < 2 ^ 63
      → reserve_fresh W api cr s ≡ (ok a, t)
      → (body : String) × (resp : HttpResponse) × (resv : ReserveResponse) × (rest : List String)
        × (W.codec.encode_reserve (range_request cr n) ≡ ok body)
        × (W.send api.tls
              (record {
                method = method_post;
                url = network_url W api cr.spec.network_key "reserve";
                json = true;
                body = body;
              })
              s
            ≡ (ok resp, t))
        × (W.codec.decode_reserve resp.body ≡ ok resv)
        × (resv.ips ≡ a.ip ∷ rest)
        × (a.lb_range_start ≡ (ends rest).0)
        × (a.lb_range_stop ≡ (ends rest).1)
  unfolding reserve_fresh
  reserve_fresh-range r n a s t has unpinned count small h =
      let ask = reserve_ips W api cr.spec.network_key (reserve_request cr) in
      let pick : ReserveResponse → Exec W.State Allocated =
        λ resv. lift (first_reserved resv.ips cr.spec.lb_range) in
      let (resv, u, asked, end) = >>=-eq-ok (context "reserve IP" ask) pick s h in
      let (body, resp, encoded, sent, _, read) =
        reserve_ips-sent W api s u cr.spec.network_key (reserve_request cr) resv
          (context-eq-ok "reserve IP" ask s asked) in
      let same : u ≡ t = ap (λ (p : Result Allocated × W.State). p.1) end in
      let (rest, shape, start, stop) = first_reserved-ends r resv.ips a unpinned (
        ap (first_reserved resv.ips) (sym has)
        ∙ ap (λ (p : Result Allocated × W.State). p.0) end) in
      (
        body,
        resp,
        resv,
        rest,
        ap W.codec.encode_reserve (sym (reserve_request-range r n has count small)) ∙ encoded,
        sent ∙ (λ i. (ok resp, same i)),
        read,
        shape,
        start,
        stop,
      )
