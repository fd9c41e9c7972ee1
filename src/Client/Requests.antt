-- ===== src/Client/Requests.antt =====
-- The requests that the client sends, and its base URL (pkg/client/client.go).
use clusterbook_operator.Prelude.{
  String, ◌<>◌, ◌≡◌, refl, ap, ℕ, List, Bool, true, false, ◌&&◌, Option, arith, ◌==◌, eqb, sym, ◌∙◌,
  Bool-cases, inl, inr, if◌then◌else◌,
}
use Prim.Native.Char.{code}
use clusterbook_operator.Prelude.Text.{trim_slashes}
use clusterbook_operator.Prelude.Number.{show, pos}
use clusterbook_operator.Exec.{
  Error, message, Result, ok, err, Exec, pure, fail, lift, context, ◌>>=◌, ◌>>◌,
}
use clusterbook_operator.Exec.Inversion.{>>=-eq-ok, context-eq-ok}
use clusterbook_operator.World.{World, Codec}
use clusterbook_operator.World.Data.{
  HttpRequest, HttpResponse, Method, method_get, method_post, IpInfo, ReserveRequest,
  ReserveResponse, ReleaseRequest, TlsConfig,
}
use clusterbook_operator.Client.{
  Client, TlsOptions, tls_config, new_client, exchange, network_url, reserve_ips, release_ips,
  ok_or_created, ok_or_no_content, only_ok, get_ips,
}

trim_slashes_idem : (s : String) → trim_slashes (trim_slashes s) ≡ trim_slashes s
unfolding trim_slashes
trim_slashes_idem String.[] = refl
trim_slashes_idem (String.◌∷◌ c s) = elim (Bool-cases (trim_slashes s == "" && eqb (code c) b'/')) [
  | inl e ↦ rw e refl
  | inr e ↦ rw (e, trim_slashes_idem s, e) refl
]

-- If NewClient succeeds, the client's base URL ends with no slash that a further trimming would
-- remove.
pub new_client-base :
    (C : Codec) (base : String) (opts : Option TlsOptions) (c : Client)
    → new_client C base opts ≡ ok c
    → trim_slashes c.base_url ≡ c.base_url
unfolding new_client
new_client-base C base opts c h = base_of (tls_config C opts) h
  where
    base_of :
        (r : Result (Option TlsConfig))
        → (elim r [
          | ok tls ↦ ok (record { base_url = trim_slashes base; tls = tls })
          | err e ↦ err e
        ])
          ≡ ok c
        → trim_slashes c.base_url ≡ c.base_url
    base_of (ok tls) h =
        let e : trim_slashes base ≡ c.base_url = ground arith in
        ap trim_slashes (sym e) ∙ trim_slashes_idem base ∙ e
    base_of (err e) h = cc

module _ {S : Type 0} {A : Type 0} where
  accepted :
      (b : Bool) (a a' : A) (e : Error) (s t : S)
      → (if b then pure a else fail e) s ≡ (ok a', t)
      → (b ≡ true) × (pure a s ≡ (ok a', t))
  accepted true a a' e s t h = (refl, h)
  accepted false a a' e s t h = cc

  -- A pure step that returned leaves the state as it was.
  pub lift-eq-ok :
      (w : String) (r : Result A) (s t : S) (a : A)
      → context w (lift r) s ≡ (ok a, t)
      → (r ≡ ok a) × (s ≡ t)
  lift-eq-ok w r s t a h =
      let h' = context-eq-ok w (lift r) s h in
      (ap (λ (p : Result A × S). p.0) h', ap (λ (p : Result A × S). p.1) h')

module _ (W : World) (c : Client) (s t : W.State) where
  exchange-eq-ok :
      (what label : String) (method : Method) (url : String) (json : Bool) (body : String)
      (accepts : ℕ → Bool) (resp : HttpResponse)
      → exchange W c what label method url json body accepts s ≡ (ok resp, t)
      → (W.send c.tls (record { method = method; url = url; json = json; body = body }) s
          ≡ (ok resp, t))
        × (accepts resp.status_code ≡ true)
  unfolding exchange
  exchange-eq-ok what label method url json body accepts resp h =
      let request : HttpRequest = record { method = method; url = url; json = json; body = body } in
      let refused : HttpResponse → Error = λ r.
        message
          (label <> (" returned status " <> (show (pos r.status_code) <> (": " <> r.body)))) in
      let answer : HttpResponse → Exec W.State HttpResponse =
        λ r. if accepts r.status_code then pure r else fail (refused r) in
      let sending = context (what <> " request failed") (W.send c.tls request) in
      let (x, u, checked, rest) =
        >>=-eq-ok
          (context ("cannot create " <> (what <> " request")) (lift (W.codec.check_url url)))
          (λ (_ : Unit {0}). sending >>= answer) s h in
      let (r, v, sent, end) = >>=-eq-ok sending answer u rest in
      let (good, same) = accepted (accepts r.status_code) r resp (refused r) v t end in
      let start =
        (lift-eq-ok ("cannot create " <> (what <> " request")) (W.codec.check_url url) s u tt
          checked).1 in
      let sent' : W.send c.tls request u ≡ (ok r, v) =
        context-eq-ok (what <> " request failed") (W.send c.tls request) u sent in
      let this : r ≡ resp = ground arith in
      (
        ap (W.send c.tls request) start ∙ sent' ∙ same,
        ap (λ (q : HttpResponse). accepts q.status_code) (sym this) ∙ good,
      )

  -- If ReserveIPs succeeds, the request's JSON was sent by POST, over the client's transport,
  -- to the network's reserve URL, the server answered 200 or 201, and the result is what the
  -- answer's body decodes to.
  pub reserve_ips-sent :
      (network_key : String) (req : ReserveRequest) (resv : ReserveResponse)
      → reserve_ips W c network_key req s ≡ (ok resv, t)
      → (body : String) × (resp : HttpResponse) × (W.codec.encode_reserve req ≡ ok body)
        × (W.send c.tls
              (record {
                method = method_post;
                url = network_url W c network_key "reserve";
                json = true;
                body = body;
              })
              s
            ≡ (ok resp, t))
        × (ok_or_created resp.status_code ≡ true)
        × (W.codec.decode_reserve resp.body ≡ ok resv)
  unfolding reserve_ips
  reserve_ips-sent k req resv h =
      let decode : HttpResponse → Exec W.State ReserveResponse = λ resp.
        context "cannot decode reserve response" (lift (W.codec.decode_reserve resp.body)) in
      let run : String → Exec W.State HttpResponse = λ body.
        exchange W c "reserve" "reserve request" method_post (network_url W c k "reserve") true body
          ok_or_created in
      let (body, u, encoded, rest) =
        >>=-eq-ok (context "cannot marshal reserve request" (lift (W.codec.encode_reserve req)))
          (λ body. run body >>= decode) s h in
      let (resp, v, sent, end) = >>=-eq-ok (run body) decode u rest in
      let (read, start) =
        lift-eq-ok "cannot marshal reserve request" (W.codec.encode_reserve req) s u body encoded in
      let (answer, stop) =
        lift-eq-ok "cannot decode reserve response" (W.codec.decode_reserve resp.body) v t resv
          end in
      let there : run body s ≡ (ok resp, t) =
        ap (run body) start ∙ sent ∙ (λ i. (ok resp, stop i)) in
      let (passed, good) =
        exchange-eq-ok "reserve" "reserve request" method_post (network_url W c k "reserve") true
          body ok_or_created resp there in
      (body, resp, read, passed, good, answer)

  -- If ReleaseIPs succeeds, the request's JSON was sent by POST, over the client's transport,
  -- to the network's release URL, and the server answered 200 or 204.
  pub release_ips-sent :
      (network_key : String) (req : ReleaseRequest)
      → release_ips W c network_key req s ≡ (ok tt, t)
      → (body : String) × (resp : HttpResponse) × (W.codec.encode_release req ≡ ok body)
        × (W.send c.tls
              (record {
                method = method_post;
                url = network_url W c network_key "release";
                json = true;
                body = body;
              })
              s
            ≡ (ok resp, t))
        × (ok_or_no_content resp.status_code ≡ true)
  unfolding release_ips
  release_ips-sent k req h =
      let run : String → Exec W.State HttpResponse = λ body.
        exchange W c "release" "release request" method_post (network_url W c k "release") true body
          ok_or_no_content in
      let (body, u, encoded, rest) =
        >>=-eq-ok (context "cannot marshal release request" (lift (W.codec.encode_release req)))
          (λ body. run body >> pure tt) s h in
      let (resp, v, sent, end) = >>=-eq-ok (run body) (λ (_ : HttpResponse). pure tt) u rest in
      let (read, start) =
        lift-eq-ok "cannot marshal release request" (W.codec.encode_release req) s u body encoded in
      let stop : v ≡ t = ap (λ (p : Result (Unit {0}) × W.State). p.1) end in
      let there : run body s ≡ (ok resp, t) =
        ap (run body) start ∙ sent ∙ (λ i. (ok resp, stop i)) in
      let (passed, good) =
        exchange-eq-ok "release" "release request" method_post (network_url W c k "release") true
          body ok_or_no_content resp there in
      (body, resp, read, passed, good)

  -- If GetIPs succeeds, the listing was read by GET, over the client's transport, from the
  -- network's URL, the server answered 200, and the result is what the answer's body decodes to.
  pub get_ips-sent :
      (network_key : String) (ips : List IpInfo)
      → get_ips W c network_key s ≡ (ok ips, t)
      → (resp : HttpResponse) × (W.send c.tls
            (record {
              method = method_get;
              url = network_url W c network_key "ips";
              json = false;
              body = "";
            })
            s
          ≡ (ok resp, t))
        × (only_ok resp.status_code ≡ true)
        × (W.codec.decode_ips resp.body ≡ ok ips)
  unfolding get_ips
  get_ips-sent k ips h =
      let run : Exec W.State HttpResponse =
        exchange W c "get IPs" "get IPs" method_get (network_url W c k "ips") false "" only_ok in
      let decode : HttpResponse → Exec W.State (List IpInfo) =
        λ resp. context "cannot decode IPs response" (lift (W.codec.decode_ips resp.body)) in
      let (resp, v, sent, end) = >>=-eq-ok run decode s h in
      let (answer, stop) =
        lift-eq-ok "cannot decode IPs response" (W.codec.decode_ips resp.body) v t ips end in
      let there : run s ≡ (ok resp, t) = sent ∙ (λ i. (ok resp, stop i)) in
      let (passed, good) =
        exchange-eq-ok "get IPs" "get IPs" method_get (network_url W c k "ips") false "" only_ok
          resp there in
      (resp, passed, good, answer)
