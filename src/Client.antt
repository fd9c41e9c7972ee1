-- ===== src/Client.antt =====
-- The clusterbook REST client (pkg/client/client.go).
pub mod Requests
use clusterbook_operator.Prelude.{
  String, ◌<>◌, ℕ, Bool, true, false, not, ◌||◌, Option, none, some, List, ◌==◌, eqb, if◌then◌else◌,
}
use clusterbook_operator.Prelude.Text.{trim_slashes}
use clusterbook_operator.Prelude.Number.{pos, show}
use clusterbook_operator.Exec.{
  message, Result, ok, err, Exec, pure, fail, lift, context, ◌>>=◌, ◌>>◌,
}
use clusterbook_operator.World.{Codec, World}
use clusterbook_operator.World.Data.{
  TlsConfig, HttpResponse, Method, method_get, method_post, method_put, ReserveRequest,
  ReserveResponse, ReleaseRequest, IpInfo, ClusterInfo,
}

-- `Client`: the HTTP client is told apart by the TLS settings of its transport.
pub record Client : Type 0 where
  pub base_url : String
  pub tls : Option TlsConfig

-- `TLSOptions`
pub record TlsOptions : Type 0 where
  pub insecure_skip_verify : Bool
  pub custom_ca : String

-- The part of `NewClient` that adds the custom CA to the pool.
unfoldable pub root_cas : Codec → String → Result (Option String)
root_cas C ca =
    if ca == ""
    then ok none
    else if C.certificates_parse ca
    then ok (some ca)
    else err (message "cannot parse custom CA certificate")

-- The transport's TLS settings; `nil` options and empty ones leave the default.
unfoldable pub tls_config : Codec → Option TlsOptions → Result (Option TlsConfig)
tls_config C none = ok none
tls_config C (some o) =
    if o.insecure_skip_verify || not (o.custom_ca == "")
    then elim (root_cas C o.custom_ca) [
      | ok cas ↦
          ok (some (record { insecure_skip_verify = o.insecure_skip_verify; root_cas = cas }))
      | err e ↦ err e
    ]
    else ok none

-- `NewClient`
unfoldable pub new_client : Codec → String → Option TlsOptions → Result Client
new_client C base opts = elim (tls_config C opts) [
  | ok tls ↦ ok (record { base_url = trim_slashes base; tls = tls })
  | err e ↦ err e
]

-- The tests of the status codes.
unfoldable pub ok_or_created : ℕ → Bool
ok_or_created n = eqb n 200 || eqb n 201

unfoldable pub ok_or_no_content : ℕ → Bool
ok_or_no_content n = eqb n 200 || eqb n 204

unfoldable pub only_ok : ℕ → Bool
only_ok n = eqb n 200

module _ (W : World) (c : Client) where
  -- `NewRequestWithContext`, the header, `Do` and the test of the status code. `what` and `label`
  -- are the words of the messages.
  unfoldable pub exchange :
      String → String → Method → String → Bool → String → (ℕ → Bool) → Exec W.State HttpResponse
  exchange what label method url json body accepts = do
    context ("cannot create " <> (what <> " request")) (lift (W.codec.check_url url))
    resp ←
        context (what <> " request failed")
          (W.send c.tls (record { method = method; url = url; json = json; body = body }))
    if accepts resp.status_code
        then pure resp
        else fail (
            message (
              label
              <> (" returned status " <> (show (pos resp.status_code) <> (": " <> resp.body)))))

  unfoldable pub network_url : String → String → String
  network_url network_key rest =
      c.base_url <> ("/api/v1/networks/" <> (network_key <> ("/" <> rest)))

  -- `ReserveIPs`
  unfoldable pub reserve_ips : String → ReserveRequest → Exec W.State ReserveResponse
  reserve_ips network_key req = do
    body ← context "cannot marshal reserve request" (lift (W.codec.encode_reserve req))
    resp ←
        exchange "reserve" "reserve request" method_post (network_url network_key "reserve") true
          body ok_or_created
    context "cannot decode reserve response" (lift (W.codec.decode_reserve resp.body))

  -- `GetIPs`
  unfoldable pub get_ips : String → Exec W.State (List IpInfo)
  get_ips network_key = do
    resp ← exchange "get IPs" "get IPs" method_get (network_url network_key "ips") false "" only_ok
    context "cannot decode IPs response" (lift (W.codec.decode_ips resp.body))

  -- `GetClusterInfo`
  unfoldable pub get_cluster_info : String → Exec W.State ClusterInfo
  get_cluster_info cluster_name = do
    resp ←
        exchange "get cluster info" "get cluster info" method_get
          (c.base_url <> ("/api/v1/clusters/" <> cluster_name)) false "" only_ok
    context "cannot decode cluster info response" (lift (W.codec.decode_info resp.body))

  -- `ReleaseIPs`
  unfoldable pub release_ips : String → ReleaseRequest → Exec W.State (Unit {0})
  release_ips network_key req = do
    body ← context "cannot marshal release request" (lift (W.codec.encode_release req))
    exchange "release" "release request" method_post (network_url network_key "release") true body
        ok_or_no_content
    pure tt

  -- `UpdateIP`
  unfoldable pub update_ip : String → String → ReserveRequest → Exec W.State (Unit {0})
  update_ip network_key ip req = do
    body ← context "cannot marshal update request" (lift (W.codec.encode_reserve req))
    exchange "update" "update request" method_put (network_url network_key ("ips/" <> ip)) true body
        only_ok
    pure tt
