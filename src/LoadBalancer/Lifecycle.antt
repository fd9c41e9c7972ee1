-- ===== src/LoadBalancer/Lifecycle.antt =====
-- The steps of a load balancer's life (controller/loadbalancer_reconciler.go).
use clusterbook_operator.Prelude.{
  String, ◌<>◌, ◌≡◌, ◌≢◌, refl, sym, ap, ◌∙◌, false, true, Option, none, some, default_to,
}
use clusterbook_operator.Exec.{Result, ok, err, Exec, attempt, context, pure, ◌>>=◌, ◌>>◌}
use clusterbook_operator.Exec.Inversion.{>>=-eq-ok, result_or}
use clusterbook_operator.Shared.Provider.{with_client-live}
use clusterbook_operator.Api.LoadBalancer.{LoadBalancer, LoadBalancerSpec}
use clusterbook_operator.World.{World}
use clusterbook_operator.World.Data.{load_balancer, ClusterInfo}
use clusterbook_operator.Client.{Client, get_cluster_info}
use clusterbook_operator.Cluster.Reconcile.{result_option}
use clusterbook_operator.Single.{ensure_single}
use clusterbook_operator.Single.Lifecycle.{ensure_single-held}
use clusterbook_operator.Api.Meta.{ObjectMeta}
use clusterbook_operator.Prelude.Reachable.{Reach, Reach-invariant}
use clusterbook_operator.LoadBalancer.Pool.{upsert_cilium_pool}
use clusterbook_operator.LoadBalancer.Service.{patch_service_lb_ip}
use clusterbook_operator.LoadBalancer.Reconcile.{
  lb_finalizer, Published, Target, pool_target, service_target, target_of, wish, status_with_info,
  ensure_reservation, ensure_finalizer, publish, final_status, reconcile_target, reconcile_checked,
  reconcile_live, reconcile_found, finalize,
}

-- What the status says of the target, and of no other.
abbrev pub Names : LoadBalancer → Target → LoadBalancer → Type 0
Names cr (pool_target p) d =
    (d.status.pool_name ≡ default_to (cr.spec.name <> "-pool") p.pool_name)
    × (d.status.target_service_ref ≡ none)
Names cr (service_target ref) d =
    (d.status.pool_name ≡ "") × (d.status.target_service_ref ≡ some ref)

module _ (W : World) where
  -- What happens to the CR between two looks at it. A reconcile that fails writes no status.
  pub data Step : LoadBalancer → LoadBalancer → Type 0 where
    edited :
        (cr : LoadBalancer) (m : ObjectMeta) (spec : LoadBalancerSpec)
        → Step cr (record cr { meta = m; spec = spec })
    reconciled :
        (cr : LoadBalancer) (api : Client) (ip : String) (info : Option ClusterInfo)
        (target : Target) (p : Published) (s t u v : W.State)
        → ensure_reservation W api cr s ≡ (ok ip, t)
        → publish W cr ip info target u ≡ (ok p, v)
        → Step cr (final_status W p ip info)

  -- The CR `d` has the IP in its status that was reserved for the CR `c`.
  pub record Reserved (c d : LoadBalancer) : Type 0 where
    pub api : Client
    pub ip : String
    pub before : W.State
    pub after : W.State
    pub reserved :
        ensure_single W api
          (record {
            status_ip = c.status.ip;
            network_key = c.spec.network_key;
            name = c.spec.name;
            create_dns = c.spec.create_dns;
          })
          before
        ≡ (ok ip, after)
    pub written : d.status.ip ≡ ip

  final_status-names :
      (p : Published) (ip : String) (info : Option ClusterInfo)
      → ((final_status W p ip info).status.ip ≡ ip)
        × ((final_status W p ip info).status.pool_name ≡ p.pool_name)
        × ((final_status W p ip info).status.target_service_ref ≡ p.target_service_ref)
  unfolding final_status status_with_info
  final_status-names p ip none = (refl, refl, refl)
  final_status-names p ip (some i) = (refl, refl, refl)

  names-of :
      (p : Published) (ip : String) (info : Option ClusterInfo) {q : Published}
      → q ≡ p
      → ((final_status W p ip info).status.pool_name ≡ q.pool_name)
        × ((final_status W p ip info).status.target_service_ref ≡ q.target_service_ref)
  names-of p ip info same =
      let (_, pool, ref) = final_status-names p ip info in
      (
        pool ∙ sym (ap (λ (x : Published). x.pool_name) same),
        ref ∙ sym (ap (λ (x : Published). x.target_service_ref) same),
      )

  publish-Names :
      (cr : LoadBalancer) (ip : String) (info : Option ClusterInfo) (target : Target)
      (p : Published) (s t : W.State)
      → publish W cr ip info target s ≡ (ok p, t)
      → Names cr target (final_status W p ip info)
  unfolding publish
  publish-Names cr ip info (pool_target q) p s t h =
      let name = default_to (cr.spec.name <> "-pool") q.pool_name in
      let result : Published = record { cr = cr; pool_name = name; target_service_ref = none } in
      let (_, u, _, rest) =
        >>=-eq-ok
          (context "upsert cilium pool" (upsert_cilium_pool W cr q.service_selector name ip info))
          (λ (_ : Unit {0}). pure result) s h in
      names-of p ip info (ap (λ (x : Result Published × W.State). result_or p x.0) rest)
  publish-Names cr ip info (service_target ref) p s t h =
      let result : LoadBalancer → Published =
        λ cr'. record { cr = cr'; pool_name = ""; target_service_ref = some ref } in
      let (cr', u, _, rest) =
        >>=-eq-ok (context "patch service loadBalancerIP" (patch_service_lb_ip W ref cr ip))
          (λ cr'. pure (result cr')) s h in
      names-of p ip info (ap (λ (x : Result Published × W.State). result_or p x.0) rest)

  reconcile_target-step :
      (cr : LoadBalancer) (api : Client) (target : Target) (s u : W.State)
      → reconcile_target W cr api target s ≡ (ok tt, u)
      → (d : LoadBalancer) × (v : W.State) × Step cr d
        × Reserved cr d
        × Names cr target d
        × ((W.update_status load_balancer d v).1 ≡ u)
  unfolding reconcile_target ensure_reservation wish
  reconcile_target-step cr api target s u h =
      let told : Exec W.State (Result ClusterInfo) =
        attempt (get_cluster_info W api cr.spec.name) in
      let write : String → Option ClusterInfo → Published → Exec W.State (Unit {0}) = λ ip info p.
        attempt (W.update_status load_balancer (final_status W p ip info)) >> pure tt in
      let send : String → Result ClusterInfo → Exec W.State (Unit {0}) = λ ip found.
        publish W cr ip (result_option found) target >>= write ip (result_option found) in
      let (ip, t, reserved, rest) =
        >>=-eq-ok (ensure_reservation W api cr) (λ ip. told >>= send ip) s h in
      let (found, v, _, rest') = >>=-eq-ok told (send ip) t rest in
      let (p, w, published, rest'') =
        >>=-eq-ok (publish W cr ip (result_option found) target) (write ip (result_option found)) v
          rest' in
      let d = final_status W p ip (result_option found) in
      (
        d,
        w,
        reconciled cr api ip (result_option found) target p s t v w reserved published,
        record {
          api = api;
          ip = ip;
          before = s;
          after = t;
          reserved = reserved;
          written = (final_status-names p ip (result_option found)).0;
        },
        publish-Names cr ip (result_option found) target p v w published,
        ap (λ (x : Result (Unit {0}) × W.State). x.1) rest'',
      )

  reconcile_checked-step :
      (cr : LoadBalancer) (api : Client) (target : Result Target) (s u : W.State)
      → reconcile_checked W cr api target s ≡ (ok tt, u)
      → (checked : Target) × (d : LoadBalancer) × (v : W.State) × (target ≡ ok checked)
        × Step cr d
        × Reserved cr d
        × Names cr checked d
        × ((W.update_status load_balancer d v).1 ≡ u)
  unfolding reconcile_checked
  reconcile_checked-step cr api (ok target) s u h =
      let (d, v, step, held, names, done) = reconcile_target-step cr api target s u h in
      (target, d, v, refl, step, held, names, done)
  reconcile_checked-step cr api (err e) s u h = cc

  -- If a reconcile succeeds for a load balancer that has its finalizer and is not being
  -- deleted, its spec has exactly one target, and there is a CR that is a step of the
  -- balancer's life away, whose status names that target and no other and holds the IP that was
  -- reserved for the CR's name, network, status and DNS wish, and whose status write is the
  -- last thing that the reconcile does, whatever this write returns.
  pub reconcile_found-balancer_step :
      (cr : LoadBalancer) (s u : W.State)
      → cr.meta.deleting ≡ false
      → W.machinery.contains_finalizer cr.meta.finalizers lb_finalizer ≡ true
      → reconcile_found W cr s ≡ (ok tt, u)
      → (target : Target) × (d : LoadBalancer) × (v : W.State) × (target_of cr.spec.cilium_pool
            cr.spec.service_ref
          ≡ ok target)
        × Step cr d
        × Reserved cr d
        × Names cr target d
        × ((W.update_status load_balancer d v).1 ≡ u)
  unfolding reconcile_found reconcile_live ensure_finalizer
  reconcile_found-balancer_step cr s u live there h =
      let (api, t, rest) =
        with_client-live W cr.spec.provider_config_ref cr.meta.deleting (finalize W cr)
          (reconcile_live W cr) s live h in
      reconcile_checked-step cr api (target_of cr.spec.cilium_pool cr.spec.service_ref) t u
        (rw there at rest)

  step-ip : (c d : LoadBalancer) → Step c d → c.status.ip ≢ "" → d.status.ip ≡ c.status.ip
  unfolding ensure_reservation wish
  step-ip c d (edited cr m spec) n = refl
  step-ip c d (reconciled cr api ip info target p s t u v reserved published) n =
      (final_status-names p ip info).0 ∙ sym (ensure_single-held W api (wish cr) ip s t n reserved)

  -- A load balancer's IP is never exchanged: through any sequence of edits of its spec and
  -- metadata and of reconciles, each with a reservation and a publication that succeed and the
  -- status that is then written, a status that holds an IP keeps that IP, whatever target,
  -- network and name the spec is given.
  pub Reach-balancer_ip :
      (c d : LoadBalancer)
      → Reach Step (λ _. Unit) c d
      → c.status.ip ≢ ""
      → d.status.ip ≡ c.status.ip
  Reach-balancer_ip c d path n =
      Reach-invariant (λ e. e.status.ip ≡ c.status.ip)
        (λ a b q _ step. step-ip a b step (λ h. n (sym q ∙ h)) ∙ q) d path refl
