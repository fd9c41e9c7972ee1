-- ===== src/Single/Kept.antt =====
-- What is reserved stays reserved through every further reservation (`ensureReservation` of
-- controller/loadbalancer_reconciler.go, controller/allocation_reconciler.go and
-- controller/vcluster_reconciler.go, and the requests of pkg/client/client.go).
use clusterbook_operator.Prelude.{
  String, ◌<>◌, ℕ, Bool, ◌≡◌, true, Option, some, none, List, false, ◌==◌, not, if◌then◌else◌,
}
use clusterbook_operator.Prelude.Number.{show, pos}
use clusterbook_operator.Exec.{Error, message, Exec, pure, fail, lift, context, ◌>>=◌}
use clusterbook_operator.Exec.Kept.{Keeps, >>=-Keeps, if-Keeps}
use clusterbook_operator.World.{World}
use clusterbook_operator.World.Data.{
  IpInfo, ReserveRequest, ReserveResponse, HttpResponse, Method, method_get, method_post,
}
use clusterbook_operator.Client.{
  Client, exchange, get_ips, reserve_ips, only_ok, ok_or_created, network_url,
}
use clusterbook_operator.Cluster.Reservation.{find_reserved}
use clusterbook_operator.Single.{
  Wish, single_request, first_ip, reserve_single, listed_single, ensure_single,
}
use clusterbook_operator.Single.Contract.{Clusterbook, booked}

module _ (W : World) (c : Client) (B : Clusterbook W c) where
  abbrev pub book : String → String → W.State → Option String
  book = booked W c B.listing

  module _ (k n ip : String) where
    abbrev Holds : W.State → Type 0
    Holds s = book k n s ≡ some ip

    exchange-Keeps :
        (what label : String) (method : Method) (url : String) (json : Bool) (body : String)
        (accepts : ℕ → Bool)
        → Keeps Holds
            (W.send c.tls (record { method = method; url = url; json = json; body = body }))
        → Keeps Holds (exchange W c what label method url json body accepts)
    unfolding exchange
    exchange-Keeps what label method url json body accepts sent =
        let refused : HttpResponse → Error = λ r.
          message
            (label <> (" returned status " <> (show (pos r.status_code) <> (": " <> r.body)))) in
        let answer : HttpResponse → Exec W.State HttpResponse =
          λ r. if accepts r.status_code then pure r else fail (refused r) in
        let sending =
          context (what <> " request failed")
            (W.send c.tls (record { method = method; url = url; json = json; body = body })) in
        >>=-Keeps Holds
          (context ("cannot create " <> (what <> " request")) (lift (W.codec.check_url url)))
          (λ (_ : Unit {0}). sending >>= answer) (λ s p. p)
          λ _. >>=-Keeps Holds sending answer sent λ r.
            if-Keeps Holds (accepts r.status_code) (pure r) (fail (refused r)) (λ s p. p) (λ s p. p)

    pub get_ips-Keeps : (key : String) → Keeps Holds (get_ips W c key)
    unfolding get_ips
    get_ips-Keeps key =
        let url = network_url W c key "ips" in
        >>=-Keeps Holds (exchange W c "get IPs" "get IPs" method_get url false "" only_ok)
          (λ resp. context "cannot decode IPs response" (lift (W.codec.decode_ips resp.body)))
          (exchange-Keeps "get IPs" "get IPs" method_get url false "" only_ok
            (B.list_keeps key k n ip))
          (λ r s p. p)

    reserve_ips-Keeps :
        (key : String) (req : ReserveRequest) → Keeps Holds (reserve_ips W c key req)
    unfolding reserve_ips
    reserve_ips-Keeps key req =
        let url = network_url W c key "reserve" in
        let decode : HttpResponse → Exec W.State ReserveResponse = λ resp.
          context "cannot decode reserve response" (lift (W.codec.decode_reserve resp.body)) in
        let run : String → Exec W.State HttpResponse = λ body.
          exchange W c "reserve" "reserve request" method_post url true body ok_or_created in
        >>=-Keeps Holds
          (context "cannot marshal reserve request" (lift (W.codec.encode_reserve req)))
          (λ body. run body >>= decode) (λ s p. p)
          λ body.
            >>=-Keeps Holds (run body) decode
              (exchange-Keeps "reserve" "reserve request" method_post url true body ok_or_created
                (B.reserve_keeps key body k n ip))
              (λ r s p. p)

    listed_single-Keeps :
        (w : Wish) (found : Option String) → Keeps Holds (listed_single W c w found)
    unfolding listed_single reserve_single
    listed_single-Keeps w (some x) = λ s p. p
    listed_single-Keeps w none =
        >>=-Keeps Holds (context "reserve IP" (reserve_ips W c w.network_key (single_request w)))
          (λ resv. lift (first_ip resv.ips)) (reserve_ips-Keeps w.network_key (single_request w))
          (λ resv s p. p)

    -- Whatever a reservation returns, no reservation is taken away.
    pub ensure_single-Keeps : (w : Wish) → Keeps Holds (ensure_single W c w)
    unfolding ensure_single
    ensure_single-Keeps w =
        let after : List IpInfo → Exec W.State String =
          λ existing. listed_single W c w (find_reserved w.name existing) in
        let listing = context "list IPs" (get_ips W c w.network_key) in
        if-Keeps Holds (not (w.status_ip == "")) (pure w.status_ip) (listing >>= after) (λ s p. p)
          (>>=-Keeps Holds listing after (get_ips-Keeps w.network_key)
            λ existing. listed_single-Keeps w (find_reserved w.name existing))
