-- ===== src/Tests/Lifecycle.antt =====
-- One cluster's life in the concrete world.
use clusterbook_operator.Prelude.{List, true, false, Option, none, some, [], ◌∷◌, ◌≡◌, refl, elem}
use clusterbook_operator.Prelude.Reachable.{Reach, here, later}
use clusterbook_operator.Prelude.Map.{lookup, merge}
use clusterbook_operator.Exec.{Result, ok, is_already_exists}
use clusterbook_operator.Api.Meta.{fresh_meta}
use clusterbook_operator.Api.Cluster.{Cluster}
use clusterbook_operator.World.Data.{ClusterInfo, IpInfo}
use clusterbook_operator.Client.{Client, get_ips, exchange, only_ok, get_cluster_info}
use clusterbook_operator.Cluster.Metadata.{Allocated}
use clusterbook_operator.Cluster.Reservation.{
  after_listing, recovered, find_reserved, is_registration_only, ensure_reservation,
  reconcile_dns_drift, drift_request, find_ip, from_status, same_bool, resolved_lb_start,
  resolved_lb_stop, registration_only_allocation,
}
use clusterbook_operator.Cluster.Reconcile.{
  Outcome, allocate, publish, final_status, reconcile_live, ensure_finalizer, allocate_from,
  result_option, render_path, render_from, render_with, check_ready, write_rendered, set_condition,
  with_info, release, Requeue,
}
use clusterbook_operator.Cluster.Lifecycle.{Step, edited, Reach-ready}
use clusterbook_operator.Cluster.Lifecycle.Recovered.{alone, Reach-recovered}
use clusterbook_operator.Cluster.Lifecycle.Run.{Run, reconcile_live-Run}
use text.Mathlib.TextLemmas.{cons-ne-nil}
use clusterbook_operator.Prelude.Text.{contains}
use clusterbook_operator.Cluster.Server.{
  argo_config_from, extract, argo_config, argo_config_from_kubeconfig, kubeconfig_hash,
}
use clusterbook_operator.Cluster.Secrets.{
  load_kubeconfig, kubeconfig_of, upsert_argo_secret, unless_exists, render, argo_secret_name,
}
use clusterbook_operator.Cluster.Reconcile.Publish
use clusterbook_operator.Cluster.Lifecycle.Allocation.{held, Reach-held, release-registration_only}
use clusterbook_operator.Tests.Fixture.{
  prod_entry, edge_range, pinned, prod, cluster_status, cluster_spec, prod_allocated, prod_info,
}
use clusterbook_operator.Tests.Server.{world, store, Store}

-- A store with the Secret that holds the kubeconfig.
abbrev kubeconfig_store : Store
kubeconfig_store = record store {
  secret = record {
    meta = fresh_meta (record { namespace = "argocd"; name = "kc" });
    contents = ("kubeconfig", "tkn") ∷ [];
    string_data = [];
  };
}

abbrev api : Client
api = record { base_url = "https://clusterbook"; tls = none }

-- A cluster that holds an IP and has answered its probe.
abbrev live : Cluster
live = record prod { status = record cluster_status { ip = "10.0.0.7"; cluster_ready = true } }

abbrev allocated : Result (Allocated × Option ClusterInfo) × Store
allocated = allocate (world false) live (some api) kubeconfig_store

abbrev published : Result Outcome × Store
published =
    publish (world false) live.spec.existing_secret_ref live.spec.kubeconfig_secret_ref live
      prod_allocated (some prod_info) allocated.1

abbrev live_outcome : Outcome
live_outcome = record {
  cr = set_condition (world false) (Publish.reconciled (world false)) live;
  secret_name = "cluster-prod";
  kubeconfig_hash = "sha256:tkn";
  requeue = none;
}

live-allocated :
    allocate (world false) live (some api) kubeconfig_store
    ≡ (ok (prod_allocated, some prod_info), allocated.1)
unfolding allocate is_registration_only allocate_from ensure_reservation reconcile_dns_drift get_ips
    exchange only_ok drift_request find_ip from_status same_bool contains resolved_lb_start
    resolved_lb_stop result_option get_cluster_info
live-allocated = refl

live-published :
    publish
      (world false)
      live.spec.existing_secret_ref
      live.spec.kubeconfig_secret_ref
      live
      prod_allocated
      (some prod_info)
      allocated.1
    ≡ (ok live_outcome, published.1)
unfolding publish render_path load_kubeconfig kubeconfig_of lookup merge render_from
    argo_config_from_kubeconfig argo_config_from extract argo_config render_with check_ready
    write_rendered upsert_argo_secret unless_exists render argo_secret_name set_condition
    kubeconfig_hash is_already_exists allocate is_registration_only allocate_from ensure_reservation
    reconcile_dns_drift get_ips exchange only_ok drift_request find_ip from_status same_bool
    contains resolved_lb_start resolved_lb_stop result_option get_cluster_info
live-published = refl

abbrev live_after : Cluster
live_after = final_status (world false) live_outcome prod_allocated (some prod_info)

live_step : Step (world false) live live_after
live_step =
    Step.reconciled live (some api) prod_allocated (some prod_info) live_outcome kubeconfig_store
      allocated.1 published.1 live-allocated live-published

-- The reconcile, and an edit of the spec.
live-Reach :
    (P : Cluster → Type 0)
    → P live
    → P live_after
    → Reach (Step (world false)) P live (record live_after { spec = cluster_spec })
live-Reach P p q =
    later live_after _ (later live live_after here p live_step) q
      (edited live_after live_after.meta cluster_spec)

Reach-ready_example : (record live_after { spec = cluster_spec }).status.cluster_ready ≡ true
Reach-ready_example =
    Reach-ready (world false) (λ cr. cr.spec.cluster_name ≡ cr.spec.cluster_name) live
      (record live_after { spec = cluster_spec })
      (live-Reach (λ cr. cr.spec.cluster_name ≡ cr.spec.cluster_name) refl refl) refl

abbrev live_run : Result Requeue × Store
live_run = reconcile_live (world false) live (some api) kubeconfig_store

reconcile_live-Run_example :
    (d : Cluster) × Step (world false) live d
    × Run (world false) api live d kubeconfig_store live_run.1
unfolding reconcile_live ensure_finalizer elem publish render_path load_kubeconfig kubeconfig_of
    lookup merge render_from argo_config_from_kubeconfig argo_config_from extract argo_config
    render_with check_ready write_rendered upsert_argo_secret unless_exists render argo_secret_name
    set_condition kubeconfig_hash is_already_exists allocate is_registration_only allocate_from
    ensure_reservation reconcile_dns_drift get_ips exchange only_ok drift_request find_ip
    from_status same_bool contains resolved_lb_start resolved_lb_stop result_option get_cluster_info
reconcile_live-Run_example =
    reconcile_live-Run (world false) live api none kubeconfig_store live_run.1 refl refl refl

Reach-held_example : held (record live_after { spec = cluster_spec }) ≡ prod_allocated
unfolding is_registration_only final_status with_info set_condition
Reach-held_example =
    Reach-held (world false) (some pinned) live (record live_after { spec = cluster_spec })
      (some api) prod_allocated (some prod_info) live_outcome kubeconfig_store allocated.1
      (λ e. absurd (cons-ne-nil "1" "0.0.0.8" e)) (refl, refl) live-allocated
      (cons-ne-nil "1" "0.0.0.7")
      (later live_after _ here (refl, refl) (edited live_after live_after.meta cluster_spec))

-- A cluster that asks for three IPs besides its own, and the one that the listing has for it.
abbrev wanting : Cluster
wanting = record prod { spec = record cluster_spec { lb_range = some edge_range } }

abbrev wanting_run : Result (Allocated × Option ClusterInfo) × Store
wanting_run = allocate (world false) wanting (some api) store

abbrev listing : Result (List IpInfo) × Store
listing = get_ips (world false) api "10.0.0" store

-- What the reconcile published of it.
abbrev given : Outcome
given = record live_outcome { cr = wanting }

Reach-recovered_example :
    held (final_status (world false) given (alone "10.0.0.7") (some prod_info)) ≡ alone "10.0.0.7"
unfolding allocate is_registration_only allocate_from ensure_reservation after_listing recovered
    reconcile_dns_drift get_ips exchange only_ok drift_request find_ip find_reserved same_bool
    contains resolved_lb_start resolved_lb_stop result_option get_cluster_info
Reach-recovered_example =
    Reach-recovered (world false) wanting
      (final_status (world false) given (alone "10.0.0.7") (some prod_info)) api edge_range
      "10.0.0.7" (prod_entry ∷ []) (alone "10.0.0.7") (some prod_info) given store listing.1
      wanting_run.1 (refl, refl) refl refl refl refl refl (cons-ne-nil "1" "0.0.0.7") refl here

-- The cluster after its user has taken it off clusterbook.
abbrev skipping : Cluster
skipping = record live { spec = record cluster_spec { skip_reservation = true } }

release-registration_only_example :
    release
      (world false)
      (final_status (world false) live_outcome (registration_only_allocation skipping) none)
      (some api)
      store
    ≡ (ok tt, store)
unfolding is_registration_only allocate
release-registration_only_example =
    release-registration_only (world false) skipping none (some api)
      (registration_only_allocation skipping) none live_outcome store store store refl refl
