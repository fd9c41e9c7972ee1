-- ===== src/Manager/Started.antt =====
-- When the manager is started (cmd/main.go).
use clusterbook_operator.Prelude.{[], ◌∷◌, some, none, String, ℕ, ◌≡◌, refl, ap, arith}
use clusterbook_operator.Exec.{Result, ok, err, Exec, pure, context, ◌>>◌}
use clusterbook_operator.Exec.Inversion.{>>=-eq-ok, context-eq-ok}
use clusterbook_operator.World.{World}
use clusterbook_operator.World.Data.{
  secret, config_map, cluster, load_balancer, allocation, vcluster, RestConfig,
}
use clusterbook_operator.Cluster.Secrets.{clusters_for_secret}
use clusterbook_operator.Cluster.Reconcile
use clusterbook_operator.LoadBalancer.Reconcile as Balancers
use clusterbook_operator.Allocation.Reconcile as Allocations
use clusterbook_operator.Vcluster.Reconcile as Vclusters
use clusterbook_operator.Manager.{
  Flags, Runtime, options, clusters, load_balancers, allocations, vclusters, register, set_up,
  serve, exit_code, main,
}

module _ (W : World) (R : Runtime W) where
  exit_code-zero : (r : Result (Unit {0})) → exit_code W R r ≡ 0 → r ≡ ok tt
  unfolding exit_code
  exit_code-zero (ok x) h = refl
  exit_code-zero (err e) h = ground arith

  -- The first of the steps that follow a step without a value.
  then-eq-ok :
      (m n : Exec R.State (Unit {0})) (s : R.State) {u : R.State}
      → (m >> n) s ≡ (ok tt, u)
      → (t : R.State) × (m s ≡ (ok tt, t)) × (n t ≡ (ok tt, u))
  then-eq-ok m n s h =
      let (_, t, first, rest) = >>=-eq-ok m (λ (_ : Unit {0}). n) s h in (t, first, rest)

  abbrev step : String → Exec R.State (Unit {0}) → Exec R.State (Unit {0})
  step name m = context name m

  -- The four registrations ran, one after the other.
  pub record Registered (s t : R.State) : Type 0 where
    pub after_clusters : R.State
    pub after_load_balancers : R.State
    pub after_allocations : R.State
    pub registered_clusters :
        R.complete
          (record {
            for_kind = cluster;
            owns = secret ∷ [];
            watches_secrets = some (clusters_for_secret W);
            reconcile = Reconcile.reconcile W;
          })
          s
        ≡ (ok tt, after_clusters)
    pub registered_load_balancers :
        R.complete
          (record {
            for_kind = load_balancer;
            owns = [];
            watches_secrets = none;
            reconcile = λ name. Balancers.reconcile W name >> pure none;
          })
          after_clusters
        ≡ (ok tt, after_load_balancers)
    pub registered_allocations :
        R.complete
          (record {
            for_kind = allocation;
            owns = config_map ∷ [];
            watches_secrets = none;
            reconcile = λ name. Allocations.reconcile W name >> pure none;
          })
          after_load_balancers
        ≡ (ok tt, after_allocations)
    pub registered_vclusters :
        R.complete
          (record {
            for_kind = vcluster;
            owns = secret ∷ cluster ∷ [];
            watches_secrets = none;
            reconcile = Vclusters.reconcile W;
          })
          after_allocations
        ≡ (ok tt, t)

  register-Registered : (s t : R.State) → register W R s ≡ (ok tt, t) → Registered s t
  unfolding register clusters load_balancers allocations vclusters
  register-Registered s t h =
      let third = step "setup ClusterbookAllocation reconciler" (R.complete (allocations W)) in
      let fourth = step "setup Vcluster reconciler" (R.complete (vclusters W)) in
      let second =
        step "setup ClusterbookLoadBalancer reconciler" (R.complete (load_balancers W)) in
      let first = step "setup ClusterbookCluster reconciler" (R.complete (clusters W)) in
      let (u, one, rest) = then-eq-ok first (second >> (third >> fourth)) s h in
      let (v, two, rest') = then-eq-ok second (third >> fourth) u rest in
      let (w, three, four) = then-eq-ok third fourth v rest' in
      record {
        after_clusters = u;
        after_load_balancers = v;
        after_allocations = w;
        registered_clusters =
            context-eq-ok "setup ClusterbookCluster reconciler" (R.complete (clusters W)) s one;
        registered_load_balancers =
            context-eq-ok "setup ClusterbookLoadBalancer reconciler" (R.complete (load_balancers W))
              u two;
        registered_allocations =
            context-eq-ok "setup ClusterbookAllocation reconciler" (R.complete (allocations W)) v
              three;
        registered_vclusters =
            context-eq-ok "setup Vcluster reconciler" (R.complete (vclusters W)) w four;
      }

  -- Every step of the set-up ran, one after the other.
  pub record SetUp (flags : Flags) (s t : R.State) : Type 0 where
    pub cfg : RestConfig
    pub after_config : R.State
    pub after_manager : R.State
    pub after_registration : R.State
    pub after_healthz : R.State
    pub configured : R.get_config s ≡ (ok cfg, after_config)
    pub made :
        R.new_manager cfg
          (record { health_probe_bind_address = flags.health_probe_bind_address })
          after_config
        ≡ (ok tt, after_manager)
    pub registered : Registered after_manager after_registration
    pub healthz : R.add_healthz_check "healthz" after_registration ≡ (ok tt, after_healthz)
    pub readyz : R.add_readyz_check "readyz" after_healthz ≡ (ok tt, t)

  set_up-SetUp : (flags : Flags) (s t : R.State) → set_up W R flags s ≡ (ok tt, t) → SetUp flags s t
  unfolding set_up options
  set_up-SetUp flags s t h =
      let manager : RestConfig → Exec R.State (Unit {0}) =
        λ cfg. step "manager" (R.new_manager cfg (options flags)) in
      let live = step "set up healthz" (R.add_healthz_check "healthz") in
      let ready = step "set up readyz" (R.add_readyz_check "readyz") in
      let (cfg, u, got, rest) =
        >>=-eq-ok R.get_config (λ cfg. manager cfg >> (register W R >> (live >> ready))) s h in
      let (v, one, rest1) = then-eq-ok (manager cfg) (register W R >> (live >> ready)) u rest in
      let (w, two, rest2) = then-eq-ok (register W R) (live >> ready) v rest1 in
      let (x, three, four) = then-eq-ok live ready w rest2 in
      record {
        cfg = cfg;
        after_config = u;
        after_manager = v;
        after_registration = w;
        after_healthz = x;
        configured = got;
        made = context-eq-ok "manager" (R.new_manager cfg (options flags)) u one;
        registered = register-Registered v w two;
        healthz = context-eq-ok "set up healthz" (R.add_healthz_check "healthz") w three;
        readyz = context-eq-ok "set up readyz" (R.add_readyz_check "readyz") x four;
      }

  -- If the process ends with the exit code 0, the manager was made from the configuration that
  -- was found and with the health probe's address; then the reconcilers were registered in this
  -- order, each with its own Reconcile: clusters, which own Secrets and watch those that
  -- clustersForSecret maps to them, load balancers, which own and watch nothing, allocations,
  -- which own ConfigMaps, and vclusters, which own Secrets and clusters; then the checks
  -- healthz and readyz were added; and only then was the manager started, in the state that
  -- these left, and it ended without an error.
  pub main-started :
      (flags : Flags) (s u : R.State)
      → main W R flags s ≡ (0, u)
      → (t : R.State) × SetUp flags s t × (R.start t ≡ (ok tt, u))
  unfolding main serve
  main-started flags s u h =
      let answered : (serve W R flags s).0 ≡ ok tt =
        exit_code-zero (serve W R flags s).0 (ap (λ (p : ℕ × R.State). p.0) h) in
      let served : serve W R flags s ≡ (ok tt, u) =
        λ i. (answered i, ap (λ (p : ℕ × R.State). p.1) h i) in
      let (t, ready, started) =
        then-eq-ok (set_up W R flags) (step "run manager" R.start) s served in
      (t, set_up-SetUp flags s t ready, context-eq-ok "run manager" R.start t started)
