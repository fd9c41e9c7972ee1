-- ===== src/Manager.antt =====
-- The entry point (cmd/main.go), and what each reconciler registers with controller-runtime's manager
-- (the `SetupWithManager` methods of controller/*.go). The manager is a parameter.
pub mod Started
use clusterbook_operator.Prelude.{String, ℕ, List, [], ◌∷◌, Option, none, some}
use clusterbook_operator.Exec.{Result, ok, err, Exec, pure, context, ◌>>=◌, ◌>>◌}
use clusterbook_operator.Api.Meta.{ObjectName}
use clusterbook_operator.World.{World}
use clusterbook_operator.World.Data.{
  Kind, secret, config_map, cluster, load_balancer, allocation, vcluster, RestConfig,
}
use clusterbook_operator.Cluster.Secrets.{clusters_for_secret}
use clusterbook_operator.Cluster.Reconcile
use clusterbook_operator.Cluster.Reconcile.{Requeue}
use clusterbook_operator.LoadBalancer.Reconcile as Balancers
use clusterbook_operator.Allocation.Reconcile as Allocations
use clusterbook_operator.Vcluster.Reconcile as Vclusters

-- What a builder is given: the kind, the kinds that are owned, the map of a watch on Secrets, and
-- the reconciler.
pub record Controller (W : World) : Type 0 where
  pub for_kind : Kind
  pub owns : List Kind
  pub watches_secrets : Option (ObjectName → W.State → List String)
  pub reconcile : String → Exec W.State Requeue

module _ (W : World) where
  -- `SetupWithManager` of `Reconciler`
  unfoldable pub clusters : Controller W
  clusters = record {
    for_kind = cluster;
    owns = secret ∷ [];
    watches_secrets = some (clusters_for_secret W);
    reconcile = Reconcile.reconcile W;
  }

  -- `SetupWithManager` of `LoadBalancerReconciler`
  unfoldable pub load_balancers : Controller W
  load_balancers = record {
    for_kind = load_balancer;
    owns = [];
    watches_secrets = none;
    reconcile = λ name. Balancers.reconcile W name >> pure none;
  }

  -- `SetupWithManager` of `AllocationReconciler`
  unfoldable pub allocations : Controller W
  allocations = record {
    for_kind = allocation;
    owns = config_map ∷ [];
    watches_secrets = none;
    reconcile = λ name. Allocations.reconcile W name >> pure none;
  }

  -- `SetupWithManager` of `VclusterReconciler`
  unfoldable pub vclusters : Controller W
  vclusters = record {
    for_kind = vcluster;
    owns = secret ∷ cluster ∷ [];
    watches_secrets = none;
    reconcile = Vclusters.reconcile W;
  }

-- The flags of `main`.
pub record Flags : Type 0 where
  pub metrics_bind_address : String
  pub health_probe_bind_address : String

-- `ctrl.Options`, as far as `main` sets it; the scheme is the same for all.
pub record Options : Type 0 where
  pub health_probe_bind_address : String

-- controller-runtime: the client's configuration, the manager, its builder and its checks.
pub record Runtime (W : World) : Type 1 where
  pub State : Type 0
  pub get_config : Exec State RestConfig
  pub new_manager : RestConfig → Options → Exec State (Unit {0})
  pub complete : Controller W → Exec State (Unit {0})
  pub add_healthz_check : String → Exec State (Unit {0})
  pub add_readyz_check : String → Exec State (Unit {0})
  pub start : Exec State (Unit {0})

-- `flag.StringVar`
abbrev pub default_flags : Flags
default_flags = record { metrics_bind_address = ":8080"; health_probe_bind_address = ":8081" }

unfoldable pub options : Flags → Options
options flags = record { health_probe_bind_address = flags.health_probe_bind_address }

module _ (W : World) (R : Runtime W) where
  -- The registrations, in the order of `main`.
  unfoldable pub register : Exec R.State (Unit {0})
  register = do
    context "setup ClusterbookCluster reconciler" (R.complete (clusters W))
    context "setup ClusterbookLoadBalancer reconciler" (R.complete (load_balancers W))
    context "setup ClusterbookAllocation reconciler" (R.complete (allocations W))
    context "setup Vcluster reconciler" (R.complete (vclusters W))

  -- Everything before the manager is started; the context is what `main` logs with an error.
  unfoldable pub set_up : Flags → Exec R.State (Unit {0})
  set_up flags = do
    cfg ← R.get_config
    context "manager" (R.new_manager cfg (options flags))
    register
    context "set up healthz" (R.add_healthz_check "healthz")
    context "set up readyz" (R.add_readyz_check "readyz")

  unfoldable pub serve : Flags → Exec R.State (Unit {0})
  serve flags = do set_up flags; context "run manager" R.start

  -- `os.Exit(1)` after an error.
  unfoldable pub exit_code : Result (Unit {0}) → ℕ
  exit_code (ok x) = 0
  exit_code (err e) = 1

  -- `main`, with the process's exit code.
  unfoldable pub main : Flags → R.State → ℕ × R.State
  main flags s = let (r, t) = serve flags s in (exit_code r, t)
