-- ===== src/Tests/Startup.antt =====
-- The manager in the concrete world.
use clusterbook_operator.Prelude.{String, ◌≡◌, refl, true, false, List, [], ◌∷◌}
use clusterbook_operator.Exec.{ok}
use clusterbook_operator.World.Data.{Kind}
use clusterbook_operator.Manager.{
  Runtime, default_flags, options, register, set_up, serve, exit_code, main, clusters,
  load_balancers, allocations, vclusters,
}
use clusterbook_operator.Manager.Started.{SetUp, main-started}
use clusterbook_operator.Tests.Server.{world}

-- What the manager was asked for, newest first.
data Call : Type 0 where
  made_with : String → Call
  controller_for : Kind → Call
  check : String → Call
  started : Call

abbrev runtime : Runtime (world true)
runtime = record {
  State = List Call;
  get_config = λ s. (
    ok (record {
      host = "https://api";
      bearer_token = "tkn";
      tls_client_config = record {
        insecure = false;
        server_name = "";
        ca_data = "";
        cert_data = "";
        key_data = "";
      };
    }),
    s,
  );
  new_manager = λ cfg opts s. (ok tt, made_with opts.health_probe_bind_address ∷ s);
  complete = λ c s. (ok tt, controller_for c.for_kind ∷ s);
  add_healthz_check = λ n s. (ok tt, check n ∷ s);
  add_readyz_check = λ n s. (ok tt, check n ∷ s);
  start = λ s. (ok tt, started ∷ s);
}

abbrev log : List Call
log =
    started
    ∷ check "readyz"
    ∷ check "healthz"
    ∷ controller_for Kind.vcluster
    ∷ controller_for Kind.allocation
    ∷ controller_for Kind.load_balancer
    ∷ controller_for Kind.cluster
    ∷ made_with ":8081"
    ∷ []

main-started_example :
    (t : runtime.State) × SetUp (world true) runtime default_flags [] t
    × (runtime.start t ≡ (ok tt, log))
unfolding main serve set_up register exit_code options clusters load_balancers allocations vclusters
main-started_example = main-started (world true) runtime default_flags [] log refl
