-- ===== src/Tests/Codec.antt =====
-- The encodings of the concrete world.
use clusterbook_operator.Prelude.{
  String, Bool, true, false, not, ◌&&◌, [], ◌∷◌, ◌==◌, ◌≡◌, sym, arith, eq_iff, if◌then◌else◌,
}
use clusterbook_operator.Exec.{ok, err, message}
use clusterbook_operator.World.{Codec}
use clusterbook_operator.World.Data.{ArgoClusterConfig, ArgoTlsClientConfig, end}
use clusterbook_operator.World.Laws.{RoundTrips}
use clusterbook_operator.Tests.Fixture.{prod_entry, prod_info}

abbrev plain_tls : ArgoTlsClientConfig
plain_tls = record {
  insecure = false;
  server_name = "";
  ca_data = "";
  cert_data = "";
  key_data = "";
}

abbrev is_plain : ArgoTlsClientConfig → Bool
is_plain t =
    not t.insecure
    && t.server_name == ""
    && t.ca_data == ""
    && t.cert_data == ""
    && t.key_data == ""

-- Settings with a token alone are written as the token; the others are refused.
abbrev pub codec : Codec
codec = record {
  load_kubeconfig = λ raw. ok (record {
    current_context = "main";
    contexts = ("main", record { cluster = "c"; auth_info = "u" }) ∷ [];
    clusters =
        (
          "c",
          record {
            server = "https://1.2.3.4:6443";
            insecure_skip_tls_verify = false;
            certificate_authority_data = "";
          },
        )
        ∷ [];
    auth_infos =
        ("u", record { token = raw; client_certificate_data = ""; client_key_data = "" }) ∷ [];
  });
  write_kubeconfig = λ k. err (message "unsupported");
  encode_config =
      λ c. if is_plain c.tls_client_config then ok c.bearer_token else err (message "unsupported");
  decode_config = λ b. ok (record { bearer_token = b; tls_client_config = plain_tls });
  sha256_hex = λ s. s;
  certificates_parse = λ s. true;
  check_url = λ s. ok tt;
  encode_reserve = λ r. ok r.cluster;
  encode_release = λ r. ok r.ip;
  decode_reserve =
      λ s. ok (record { ips = "10.0.0.7" ∷ "10.0.0.8" ∷ "10.0.0.9" ∷ []; status = "ASSIGNED" });
  decode_ips = λ s. ok (prod_entry ∷ []);
  decode_info = λ s. ok prod_info;
  decode_values = λ s. ok end;
}

plain-inv : (t : ArgoTlsClientConfig) → is_plain t ≡ true → plain_tls ≡ t
plain-inv t h =
    let e : t.insecure ≡ false = ground arith in
    let e1 : t.server_name ≡ "" = ground (arith, eq_iff t.server_name "") in
    let e2 : t.ca_data ≡ "" = ground (arith, eq_iff t.ca_data "") in
    let e3 : t.cert_data ≡ "" = ground (arith, eq_iff t.cert_data "") in
    let e4 : t.key_data ≡ "" = ground (arith, eq_iff t.key_data "") in
    sym λ i. record {
      insecure = e i;
      server_name = e1 i;
      ca_data = e2 i;
      cert_data = e3 i;
      key_data = e4 i;
    }

decode-encode :
    (c : ArgoClusterConfig) (b : String)
    → codec.encode_config c ≡ ok b
    → codec.decode_config b ≡ ok c
decode-encode c b h =
    let plain : is_plain c.tls_client_config ≡ true = ground arith in
    let token : c.bearer_token ≡ b = ground arith in
    λ i. ok (record {
      bearer_token = sym token i;
      tls_client_config = plain-inv c.tls_client_config plain i;
    })

pub codec-RoundTrips : RoundTrips codec
codec-RoundTrips = record { decode-encode_config = decode-encode }
