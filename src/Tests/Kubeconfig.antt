-- ===== src/Tests/Kubeconfig.antt =====
-- An encoding of kubeconfigs with one context, which reads back what it wrote.
use clusterbook_operator.Prelude.{
  String, Bool, true, false, not, [], ◌∷◌, ◌≡◌, refl, sym, ap, ◌∙◌, arith, ◌==◌, ◌&&◌, eq_iff,
  if◌then◌else◌,
}
use clusterbook_operator.Prelude.Map.{Map, lookup}
use clusterbook_operator.Exec.{Result, ok, err, message, and_then}
use clusterbook_operator.Exec.Inversion.{and_then-eq-ok, result_or}
use clusterbook_operator.World.{Codec}
use clusterbook_operator.World.Data.{Kubeconfig, KubeContext, KubeCluster, AuthInfo}
use clusterbook_operator.World.Laws.{ReadsBack}
use clusterbook_operator.Tests.Server.{world}

abbrev main_context : KubeContext
main_context = record { cluster = "c"; auth_info = "u" }

abbrev main_cluster : String → KubeCluster
main_cluster server = record {
  server = server;
  insecure_skip_tls_verify = false;
  certificate_authority_data = "";
}

abbrev main_user : AuthInfo
main_user = record { token = "t"; client_certificate_data = ""; client_key_data = "" }

-- The kubeconfig of a server.
abbrev kube : String → Kubeconfig
kube server = record {
  current_context = "main";
  contexts = ("main", main_context) ∷ [];
  clusters = ("c", main_cluster server) ∷ [];
  auth_infos = ("u", main_user) ∷ [];
}

abbrev is_context : String → String → KubeContext → Bool
is_context current name ctx =
    current == "main" && name == "main" && ctx.cluster == "c" && ctx.auth_info == "u"

abbrev is_cluster : String → KubeCluster → Bool
is_cluster name k =
    name == "c" && not k.insecure_skip_tls_verify && k.certificate_authority_data == ""

abbrev is_user : String → AuthInfo → Bool
is_user name u =
    name == "u" && u.token == "t" && u.client_certificate_data == "" && u.client_key_data == ""

-- The entry of a map with one.
abbrev sole {ℓ} : {V : Type ℓ} → Map V → Result (String × V)
sole [] = err (message "unsupported")
sole (e ∷ []) = ok e
sole (e ∷ f ∷ m) = err (message "unsupported")

abbrev write_entries :
    String → String × KubeContext → String × KubeCluster → String × AuthInfo → Result String
write_entries current (m, ctx) (c, k) (u, a) =
    if is_context current m ctx && is_cluster c k && is_user u a
    then ok k.server
    else err (message "unsupported")

-- Such a kubeconfig is written as its server; the others are refused.
abbrev write : Kubeconfig → Result String
write cfg = and_then (sole cfg.contexts) λ ctx.
    and_then (sole cfg.clusters)
      λ k. and_then (sole cfg.auth_infos) λ u. write_entries cfg.current_context ctx k u

abbrev pub codec : Codec
codec = record (world true).codec {
  load_kubeconfig = λ raw. ok (kube raw);
  write_kubeconfig = write;
}

context-inv :
    (current name : String) (ctx : KubeContext)
    → is_context current name ctx ≡ true
    → (current ≡ "main") × (name ≡ "main") × (ctx ≡ main_context)
context-inv current name ctx h =
    let e1 : ctx.cluster ≡ "c" = ground (arith, eq_iff ctx.cluster "c") in
    let e2 : ctx.auth_info ≡ "u" = ground (arith, eq_iff ctx.auth_info "u") in
    (
      ground (arith, eq_iff current "main"),
      ground (arith, eq_iff name "main"),
      λ i. record { cluster = e1 i; auth_info = e2 i },
    )

cluster-inv :
    (name server : String) (k : KubeCluster)
    → is_cluster name k ≡ true
    → k.server ≡ server
    → (name ≡ "c") × (k ≡ main_cluster server)
cluster-inv name server k h s =
    let e1 : k.insecure_skip_tls_verify ≡ false = ground arith in
    let e2 : k.certificate_authority_data ≡ "" =
      ground (arith, eq_iff k.certificate_authority_data "") in
    (
      ground (arith, eq_iff name "c"),
      λ i. record {
        server = s i;
        insecure_skip_tls_verify = e1 i;
        certificate_authority_data = e2 i;
      },
    )

user-inv : (name : String) (u : AuthInfo) → is_user name u ≡ true → (name ≡ "u") × (u ≡ main_user)
user-inv name u h =
    let e1 : u.token ≡ "t" = ground (arith, eq_iff u.token "t") in
    let e2 : u.client_certificate_data ≡ "" = ground (arith, eq_iff u.client_certificate_data "") in
    let e3 : u.client_key_data ≡ "" = ground (arith, eq_iff u.client_key_data "") in
    (
      ground (arith, eq_iff name "u"),
      λ i. record { token = e1 i; client_certificate_data = e2 i; client_key_data = e3 i },
    )

sole-inv {ℓ} : {V : Type ℓ} (m : Map V) (e : String × V) → sole m ≡ ok e → m ≡ e ∷ []
sole-inv [] e h = cc
sole-inv (f ∷ []) e h = ap (λ x. x ∷ []) (ap (result_or f) h)
sole-inv (f ∷ g ∷ m) e h = cc

tests-inv :
    (x y z : Bool) (s b : String)
    → (if x && y && z then ok s else err (message "unsupported")) ≡ ok b
    → (x ≡ true) × (y ≡ true) × (z ≡ true) × (s ≡ b)
tests-inv true true true s b h = (refl, refl, refl, ap (result_or s) h)
tests-inv true true false s b h = cc
tests-inv true false z s b h = cc
tests-inv false y z s b h = cc

module _ (cfg : Kubeconfig) (b : String) where
  write_entries-inv :
      (ctx : String × KubeContext) (k : String × KubeCluster) (u : String × AuthInfo)
      → cfg.contexts ≡ ctx ∷ []
      → cfg.clusters ≡ k ∷ []
      → cfg.auth_infos ≡ u ∷ []
      → write_entries cfg.current_context ctx k u ≡ ok b
      → cfg ≡ kube b
  write_entries-inv (m, ctx) (c, k) (u, a) p q r h =
      let (here, there, user, served) =
        tests-inv (is_context cfg.current_context m ctx) (is_cluster c k) (is_user u a) k.server b
          h in
      let (e, e1, e1') = context-inv cfg.current_context m ctx here in
      let (e2, e2') = cluster-inv c b k there served in
      let (e3, e3') = user-inv u a user in
      λ i. record {
        current_context = e i;
        contexts = (p ∙ λ j. (e1 j, e1' j) ∷ []) i;
        clusters = (q ∙ λ j. (e2 j, e2' j) ∷ []) i;
        auth_infos = (r ∙ λ j. (e3 j, e3' j) ∷ []) i;
      }

  write-inv : write cfg ≡ ok b → cfg ≡ kube b
  write-inv h =
      let (ctx, p, h1) =
        and_then-eq-ok (sole cfg.contexts)
          (λ ctx.
            and_then (sole cfg.clusters)
              λ k. and_then (sole cfg.auth_infos) λ u. write_entries cfg.current_context ctx k u)
          h in
      let (k, q, h2) =
        and_then-eq-ok (sole cfg.clusters)
          (λ k. and_then (sole cfg.auth_infos) λ u. write_entries cfg.current_context ctx k u) h1 in
      let (u, r, h3) =
        and_then-eq-ok (sole cfg.auth_infos) (λ u. write_entries cfg.current_context ctx k u) h2 in
      write_entries-inv ctx k u (sole-inv cfg.contexts ctx p) (sole-inv cfg.clusters k q)
        (sole-inv cfg.auth_infos u r) h3

pub codec-ReadsBack : ReadsBack codec
codec-ReadsBack = record {
  load-write_kubeconfig = λ k b h.
      let e : k ≡ kube b = write-inv k b h in
      (
        kube b,
        refl,
        record {
          current_context = sym (ap (λ (c : Kubeconfig). c.current_context) e);
          contexts = λ n. sym (ap (λ (c : Kubeconfig). lookup n c.contexts) e);
          clusters = λ n. sym (ap (λ (c : Kubeconfig). lookup n c.clusters) e);
          auth_infos = λ n. sym (ap (λ (c : Kubeconfig). lookup n c.auth_infos) e);
        },
      );
}
