-- ===== src/Tests/Reconcile.antt =====
-- Reconciles in the concrete world.
use clusterbook_operator.Prelude.{
  if◌then◌else◌, String, true, false, elem, Option, none, some, [], ◌∷◌, ◌≡◌, refl,
}
use clusterbook_operator.Prelude.Map.{lookup, merge}
use clusterbook_operator.Prelude.Number.{show}
use clusterbook_operator.Exec.{
  Result, ok, err, message, wrap, Error, Exec, fail, error_text, is_already_exists,
}
use clusterbook_operator.Api.Meta.{fresh_meta}
use clusterbook_operator.Api.Cluster.{Cluster}
use clusterbook_operator.Cluster.Reservation.{is_registration_only}
use clusterbook_operator.Api.LoadBalancer.{LoadBalancer}
use clusterbook_operator.World.Data.{
  Kubeconfig, KubeContext, KubeCluster, AuthInfo, HttpResponse, TlsConfig, HttpRequest, RestConfig,
}
use clusterbook_operator.Cluster.Server.{
  server_host, argo_config_from, extract, argo_config, build_server_url, Extracted,
  argo_config_from_kubeconfig, rest_config_from_argo, kubeconfig_hash,
}
use clusterbook_operator.Cluster.Secrets.{
  load_kubeconfig, kubeconfig_of, upsert_argo_secret, unless_exists, render, argo_secret_name,
}
use clusterbook_operator.Cluster.Server.Connection.{rest_config-argo_config}
use clusterbook_operator.Cluster.Reconcile.{
  probed, render_from, render_with, check_ready, write_rendered, probe_cluster, set_condition,
  reconciled, Outcome, Requeue, probe_requeue, render_path, reconcile_found,
}
use clusterbook_operator.Cluster.Reconcile.Ready.{answered, asked, render_path-requeue}
use clusterbook_operator.Cluster.Reconcile.Registration.{reconcile_found-no_send}
use clusterbook_operator.LoadBalancer.Reconcile.{reconcile_live}
use clusterbook_operator.LoadBalancer.Reconcile.Finalize.{reconcile_live-contradictory}
use clusterbook_operator.Readiness.{probe}
use clusterbook_operator.Tests.Fixture.{
  prod, ready_prod, kind_cluster, prod_allocated, kubeconfig_ref, balancer, ingress,
}
use clusterbook_operator.Tests.Server.{world, store, Store}
use clusterbook_operator.Tests.Codec.{codec, codec-RoundTrips}

-- The settings that are extracted for ArgoCD from a kubeconfig with the token "tkn".
abbrev extracted : Extracted
extracted = record { server = "https://1.2.3.4:6443"; config = "tkn"; ca_data = "" }

rest_config-argo_config_example :
    (cfg : Kubeconfig) × (ctx : KubeContext) × (k : KubeCluster) × (u : AuthInfo)
    × (codec.load_kubeconfig "tkn" ≡ ok cfg)
    × (lookup cfg.current_context cfg.contexts ≡ some ctx)
    × (lookup ctx.cluster cfg.clusters ≡ some k)
    × (lookup ctx.auth_info cfg.auth_infos ≡ some u)
    × (extracted.server ≡ k.server)
    × (rest_config_from_argo codec "https://api" extracted.config
        ≡ ok (record {
          host = "https://api";
          bearer_token = u.token;
          tls_client_config = record {
            insecure = k.insecure_skip_tls_verify;
            server_name = "";
            ca_data = k.certificate_authority_data;
            cert_data = u.client_certificate_data;
            key_data = u.client_key_data;
          };
        }))
unfolding argo_config_from_kubeconfig argo_config_from extract argo_config lookup
rest_config-argo_config_example =
    rest_config-argo_config codec codec-RoundTrips "tkn" "https://api" extracted refl

-- A store with the Secret that holds the kubeconfig.
abbrev kubeconfig_store : Store
kubeconfig_store = record store {
  secret = record {
    meta = fresh_meta (record { namespace = "argocd"; name = "kc" });
    contents = ("kubeconfig", "tkn") ∷ [];
    string_data = [];
  };
}

-- The outcome where the cluster is ready, and where its probe fails.
abbrev outcome : Cluster → Requeue → Outcome
outcome cr requeue = record {
  cr = cr;
  secret_name = "cluster-prod";
  kubeconfig_hash = "sha256:tkn";
  requeue = requeue;
}

abbrev ready_run : Result Outcome × Store
ready_run = render_path (world false) kubeconfig_ref ready_prod prod_allocated none kubeconfig_store

abbrev unready_run : Result Outcome × Store
unready_run = render_path (world false) kubeconfig_ref prod prod_allocated none kubeconfig_store

-- A probe that was not answered.
abbrev unready : Outcome
unready =
    outcome
      (set_condition (world false) (reconciled (world false))
        (probed (world false) prod "" (err (message "connection refused"))).0)
      (some probe_requeue)

abbrev ready : Outcome
ready = outcome (set_condition (world false) (reconciled (world false)) ready_prod) none

-- The probe that nobody answers.
abbrev ask : RestConfig → Exec Store (Unit {0})
ask c = fail (message "connection refused")

render_path-requeue_example :
    (kcfg : String) × (x : Extracted) × (answer : Result (Unit {0})) × (u v : Store)
    × (load_kubeconfig (world false) kubeconfig_ref kubeconfig_store ≡ (ok kcfg, u))
    × (argo_config_from_kubeconfig codec kcfg ≡ ok x)
    × (asked ask
          (rest_config_from_argo codec (build_server_url prod "10.0.0.7" x.server none) x.config)
          u
        ≡ (answer, v))
    × (some 30 ≡ (if answered answer then none else some probe_requeue))
    × (false ≡ answered answer)
unfolding render_path load_kubeconfig kubeconfig_of lookup merge render_from
    argo_config_from_kubeconfig argo_config_from extract argo_config render_with check_ready
    write_rendered upsert_argo_secret unless_exists render argo_secret_name probe_cluster probed
    set_condition rest_config_from_argo kubeconfig_hash error_text is_already_exists
    build_server_url server_host show probe
render_path-requeue_example =
    render_path-requeue (world false) prod_allocated none unready kubeconfig_ref prod ask
      kubeconfig_store unready_run.1 refl refl refl

-- A transport that fails.
abbrev broken : Option TlsConfig → HttpRequest → Exec Store HttpResponse
broken tls r = fail (message "no route to host")

reconcile_found-no_send_example :
    reconcile_found (world true) kind_cluster
    ≡ reconcile_found (record (world true) { send = broken }) kind_cluster
unfolding is_registration_only
reconcile_found-no_send_example = reconcile_found-no_send (world true) broken kind_cluster refl

-- The balancer that has recorded the Service's own IP.
abbrev recorded : LoadBalancer
recorded = record balancer {
  meta = record balancer.meta {
    annotations = ("clusterbook.stuttgart-things.com/previous-loadbalancer-ip", "192.168.0.1") ∷ [];
  };
}

abbrev serving : String → Store
serving ip = record store { service = record ingress { load_balancer_ip = ip } }

-- What the failed release of the IP answers.
abbrev release_error : Error
release_error = wrap "release IP" (wrap "release request failed" (message "no route to host"))

reconcile_live-contradictory_example :
    reconcile_live
      (world true)
      balancer
      (record { base_url = "https://clusterbook"; tls = none })
      store
    ≡ (err (message "spec.ciliumPool or spec.serviceRef must be set"), store)
unfolding elem
reconcile_live-contradictory_example =
    reconcile_live-contradictory (world true) balancer
      (record { base_url = "https://clusterbook"; tls = none }) store refl refl
