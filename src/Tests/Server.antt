-- ===== src/Tests/Server.antt =====
-- A world with one Secret, one Service and one listing, which serves what was written last.
use clusterbook_operator.Prelude.{
  Bool, some, true, false, none, List, [], ◌∷◌, ◌++◌, ◌≡◌, refl, sym, ap, ◌∙◌, arith, eq_iff,
  eq_refl, elem, Bool-cases, inl, inr, if◌then◌else◌,
}
use clusterbook_operator.Prelude.Map.{merge}
use clusterbook_operator.Exec.{Result, ok, err, api_error, not_found, message, Exec}
use clusterbook_operator.Exec.Inversion.{result_or}
use clusterbook_operator.Api.Meta.{ObjectName, same_name, fresh_meta, Secret, Service}
use clusterbook_operator.Api.LoadBalancer.{LoadBalancer}
use clusterbook_operator.World.{World, Machinery}
use clusterbook_operator.World.Data.{
  secret, config_map, service, provider_config, cluster, load_balancer, allocation, vcluster,
  ip_pool, application, Kind, Obj, HttpRequest,
}
use clusterbook_operator.World.Laws.{ServesSecrets, ServesServices}
use clusterbook_operator.Tests.Fixture.{prod, foreign_secret, ingress}
use clusterbook_operator.Tests.Codec.{codec}

abbrev machinery : Machinery
machinery = record {
  contains_finalizer = λ fs f. elem f fs;
  add_finalizer = λ fs f. fs ++ (f ∷ []);
  remove_finalizer = λ fs f. [];
  set_status_condition = λ cs c. c ∷ cs;
  set_nested_field = λ m v path. ok m;
  set_nested_string_slice = λ m vs path. ok m;
  set_controller_reference = λ k o m. ok m;
}

-- What the API server keeps, and what it was asked to reserve, release or update, newest first.
pub record Store : Type 0 where
  pub secret : Secret
  pub service : Service
  pub requests : List HttpRequest

-- `StringData` goes to the data.
abbrev stored : Secret → Secret
stored o = record o { contents = merge o.contents o.string_data; string_data = [] }

abbrev pub fetch : (k : Kind) → ObjectName → Store → Result (Obj k)
fetch secret n s =
    if same_name s.secret.meta.name n
    then ok (stored s.secret)
    else err (api_error not_found n.name)
fetch service n s =
    if same_name s.service.meta.name n then ok s.service else err (api_error not_found n.name)
fetch cluster n s = ok prod
fetch config_map n s = err (api_error not_found n.name)
fetch provider_config n s = ok (record {
  meta = fresh_meta n;
  spec = record {
    api_url = "https://clusterbook/";
    insecure_skip_verify = false;
    custom_ca_secret_ref = none;
  };
})
fetch load_balancer n s = err (api_error not_found n.name)
fetch allocation n s = err (api_error not_found n.name)
fetch vcluster n s = err (api_error not_found n.name)
fetch ip_pool n s = err (api_error not_found n.name)
fetch application n s = err (api_error not_found n.name)

abbrev write : (k : Kind) → Obj k → Exec Store (Obj k)
write secret o s = (ok (stored o), record s { secret = o })
write service o s = (ok o, record s { service = o })
write cluster o s = (ok o, s)
write config_map o s = (ok o, s)
write provider_config o s = (ok o, s)
write load_balancer o s = (ok o, s)
write allocation o s = (ok o, s)
write vcluster o s = (ok o, s)
write ip_pool o s = (ok o, s)
write application o s = (ok o, s)

-- The Secret of a name, a new one if there is none; it takes the place of the other.
abbrev secret_or_fresh : ObjectName → Store → Secret
secret_or_fresh n s =
    if same_name s.secret.meta.name n
    then stored s.secret
    else record { meta = fresh_meta n; contents = []; string_data = [] }

abbrev mutate : (k : Kind) → ObjectName → (Obj k → Result (Obj k)) → Exec Store (Obj k)
mutate secret n f s = elim (f (secret_or_fresh n s)) [
  | ok o ↦ write secret o s
  | err e ↦ (err e, s)
]
mutate k n f s = (err (message "unsupported"), s)

-- The server answers each request, and its cluster answers its probe if `alive`.
abbrev pub world : Bool → World
world alive = record {
  State = Store;
  codec = codec;
  machinery = machinery;
  get = fetch;
  list_clusters = λ s. ok (prod ∷ []);
  update = write;
  update_status = write;
  create_or_update = mutate;
  delete = λ k n s. (ok tt, s);
  send = λ tls r s.
      (ok (record { status_code = 200; body = "" }), record s { requests = r ∷ s.requests });
  custom_probe =
      some (λ c s. if alive then (ok tt, s) else (err (message "connection refused"), s));
  check_rest = λ c. ok tt;
  send_rest = λ c r s. (ok (record { status_code = 200; body = "ok" }), s);
  check_target = λ c. ok tt;
  get_target_secret = λ c n s. fetch secret n s;
}

abbrev pub store : Store
store = record { secret = foreign_secret; service = ingress; requests = [] }

name-eq : (a b : ObjectName) → same_name a b ≡ true → a ≡ b
name-eq a b h =
    let e : a.namespace ≡ b.namespace = ground (arith, eq_iff a.namespace b.namespace) in
    let f : a.name ≡ b.name = ground (arith, eq_iff a.name b.name) in
    λ i. record { namespace = e i; name = f i }

same_name_refl : (n : ObjectName) → same_name n n ≡ true
same_name_refl n = rw (eq_refl, eq_refl) refl

pub serves_secrets : (alive : Bool) → ServesSecrets (world alive)
unfolding merge
serves_secrets alive = record {
  get-update = λ o o' s t h.
      let kept : t.secret ≡ o = sym (ap (λ (p : Result Secret × Store). p.1.secret) h) in
      rw (kept, same_name_refl) (ap (λ (p : Result Secret × Store). p.0) h);
  update_keeps = λ o o' s t e h.
      let got : stored o ≡ o' = ap (λ (p : Result Secret × Store). result_or o p.0) h in
      (
        sym (ap (λ (x : Secret). x.meta.labels) got),
        sym (ap (λ (x : Secret). x.meta.annotations) got),
        sym (ap (λ (x : Secret). x.contents) got) ∙ ap (merge o.contents) e,
      );
  get_name = λ n o s h. elim (Bool-cases (same_name s.secret.meta.name n)) [
    | inr e ↦ cc
    | inl e ↦
        sym (ap (λ (x : Secret). x.meta.name) (ap (result_or o) (rw e at h)))
        ∙ name-eq s.secret.meta.name n e
  ];
  get_string_data = λ n o s h. elim (Bool-cases (same_name s.secret.meta.name n)) [
    | inr e ↦ cc
    | inl e ↦ sym (ap (λ (x : Secret). x.string_data) (ap (result_or o) (rw e at h)))
  ];
}

pub serves_services : (alive : Bool) → ServesServices (world alive)
serves_services alive = record {
  get-update = λ o o' s t h.
      let kept : t.service ≡ o = sym (ap (λ (p : Result Service × Store). p.1.service) h) in
      rw (kept, same_name_refl) (ap (λ (p : Result Service × Store). p.0) h);
  update_keeps = λ o o' s t h.
      let got : o ≡ o' = ap (λ (p : Result Service × Store). result_or o p.0) h in
      (
        sym (ap (λ (x : Service). x.load_balancer_ip) got),
        sym (ap (λ (x : Service). x.meta.name) got),
      );
  get_name = λ n o s h. elim (Bool-cases (same_name s.service.meta.name n)) [
    | inr e ↦ cc
    | inl e ↦
        sym (ap (λ (x : Service). x.meta.name) (ap (result_or o) (rw e at h)))
        ∙ name-eq s.service.meta.name n e
  ];
  update_annotations = λ o o' s t h.
      sym (ap (λ (p : Result LoadBalancer × Store). (result_or o p.0).meta.annotations) h);
  get-update_load_balancer =
      λ o o' s t n h. sym (ap (λ (p : Result LoadBalancer × Store). fetch service n p.1) h);
}
