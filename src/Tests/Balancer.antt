-- ===== src/Tests/Balancer.antt =====
-- The lives of a load balancer and of an allocation in the concrete world.
use package.text.Mathlib.TextLemmas.{cons-ne-nil}
use clusterbook_operator.Prelude.{String, ◌≡◌, refl, some, none, elem, [], ◌∷◌, true}
use clusterbook_operator.Prelude.Text.{trim_slashes}
use clusterbook_operator.Prelude.Map.{lookup, insert}
use clusterbook_operator.Prelude.Reachable.{here, later}
use clusterbook_operator.Exec.{Result, ok}
use clusterbook_operator.Api.Meta.{Service}
use clusterbook_operator.Api.LoadBalancer.{LoadBalancer, service_name}
use clusterbook_operator.World.Data.{load_balancer, service}
use clusterbook_operator.Client.{
  Client, exchange, only_ok, get_cluster_info, get_ips, new_client, tls_config, reserve_ips,
  ok_or_created, release_ips, ok_or_no_content,
}
use clusterbook_operator.Shared.{load_provider_config, new_clusterbook_client, custom_ca}
use clusterbook_operator.Single.{ensure_single, listed_single, reserve_single, first_ip}
use clusterbook_operator.Cluster.Reconcile.{result_option}
use clusterbook_operator.Cluster.Reservation.{find_reserved}
use clusterbook_operator.LoadBalancer.Service.{
  with_previous, patch_service_lb_ip, restore_service_lb_ip, set_ip, capture, restore_found,
  previous_ip,
}
use clusterbook_operator.LoadBalancer.Service.Histories.{
  first, again, restore-Patches, restore-unpatched, patch-settled,
}
use clusterbook_operator.LoadBalancer.Reconcile as Balancers
use clusterbook_operator.LoadBalancer.Reconcile.Release.{without_finalizer, finalize-release}
use clusterbook_operator.LoadBalancer.Lifecycle.{
  Step, reconciled, Reserved, Names, Reach-balancer_ip, reconcile_found-balancer_step,
}
use clusterbook_operator.LoadBalancer.Reconcile.{Target, service_target, target_of}
use clusterbook_operator.Tests.Fixture.{balancer, service_ref, ingress}
use clusterbook_operator.Tests.Server.{world, store, Store, fetch, serves_services}

-- The balancer of the Service.
abbrev edge : LoadBalancer
edge = record balancer { spec = record balancer.spec { service_ref = some service_ref } }

abbrev clusterbook : Client
clusterbook = record { base_url = "https://clusterbook"; tls = none }

abbrev held : LoadBalancer
held = record edge { status = record edge.status { ip = "10.0.0.7" } }

-- What is published for the balancer that has its IP, and the status that is written of it.
abbrev shown : Result Balancers.Published × Store
shown = Balancers.publish (world true) held "10.0.0.7" none (service_target service_ref) store

abbrev later_held : Balancers.Published → LoadBalancer
later_held p = Balancers.final_status (world true) p "10.0.0.7" none

abbrev published : Balancers.Published
published = record {
  cr = record held {
    meta = record held.meta {
      annotations =
          ("clusterbook.stuttgart-things.com/previous-loadbalancer-ip", "192.168.0.1") ∷ [];
    };
  };
  pool_name = "";
  target_service_ref = some service_ref;
}

Reach-balancer_ip_example : (later_held published).status.ip ≡ "10.0.0.7"
unfolding Balancers.wish Balancers.ensure_reservation ensure_single Balancers.publish
    patch_service_lb_ip set_ip capture with_previous lookup insert
Reach-balancer_ip_example =
    Reach-balancer_ip (world true) held (later_held published)
      (later held (later_held published) here tt (
        reconciled held clusterbook "10.0.0.7" none (service_target service_ref) published store
          store store shown.1 refl refl))
      (cons-ne-nil "1" "0.0.0.7")

abbrev edge_run : Result (Unit {0}) × Store
edge_run = Balancers.reconcile_found (world true) edge store

reconcile_found-balancer_step_example :
    (target : Target) × (d : LoadBalancer) × (v : Store) × (target_of none (some service_ref)
      ≡ ok target)
    × Step (world true) edge d
    × Reserved (world true) edge d
    × Names edge target d
    × (((world true).update_status load_balancer d v).1 ≡ edge_run.1)
unfolding elem Balancers.reconcile_found Balancers.reconcile_live Balancers.ensure_finalizer
    Balancers.reconcile_checked target_of Balancers.reconcile_target Balancers.ensure_reservation
    Balancers.wish Balancers.publish load_provider_config new_clusterbook_client custom_ca
    new_client tls_config trim_slashes ensure_single result_option get_cluster_info get_ips exchange
    only_ok patch_service_lb_ip set_ip capture with_previous lookup insert listed_single
    find_reserved reserve_single reserve_ips ok_or_created first_ip
reconcile_found-balancer_step_example =
    reconcile_found-balancer_step (world true) edge store edge_run.1 refl refl refl

-- The balancer that has recorded the Service's own IP.
abbrev recorded_edge : LoadBalancer
recorded_edge = record edge {
  meta = record edge.meta {
    annotations = ("clusterbook.stuttgart-things.com/previous-loadbalancer-ip", "192.168.0.1") ∷ [];
  };
}

abbrev serving : String → Store
serving ip = record store { service = record ingress { load_balancer_ip = ip } }

restore-Patches_example :
    (svc : Service) × (fetch service (service_name service_ref) (serving "192.168.0.1") ≡ ok svc)
    × (svc.load_balancer_ip ≡ "192.168.0.1")
unfolding patch_service_lb_ip restore_service_lb_ip restore_found set_ip capture previous_ip lookup
    insert with_previous
restore-Patches_example =
    restore-Patches (world true) (serves_services true) service_ref service_ref edge recorded_edge
      recorded_edge ingress (record ingress { load_balancer_ip = "10.0.0.8" }) store
      (serving "10.0.0.8") (serving "192.168.0.1") refl refl
      (again recorded_edge recorded_edge recorded_edge service_ref "10.0.0.8" (serving "10.0.0.7")
        (serving "10.0.0.8") (first recorded_edge "10.0.0.7" (serving "10.0.0.7") refl) refl refl)
      refl refl refl

restore-unpatched_example :
    (svc : Service) × (fetch service (service_name service_ref) (serving "") ≡ ok svc)
    × (svc.load_balancer_ip ≡ "")
unfolding restore_service_lb_ip restore_found set_ip previous_ip lookup
restore-unpatched_example =
    restore-unpatched (world true) (serves_services true) service_ref edge ingress store
      (serving "") refl refl refl

patch-settled_example :
    patch_service_lb_ip (world true) service_ref recorded_edge "10.0.0.7" (serving "10.0.0.7")
    ≡ (ok recorded_edge, serving "10.0.0.7")
unfolding patch_service_lb_ip set_ip capture lookup insert with_previous
patch-settled_example =
    patch-settled (world true) (serves_services true) service_ref edge recorded_edge "10.0.0.7"
      store (serving "10.0.0.7") refl

-- The same balancer with its IP, before it is deleted.
abbrev leaving : LoadBalancer
leaving = record recorded_edge { status = record edge.status { ip = "10.0.0.7" } }

abbrev left : Result (Unit {0}) × Store
left = Balancers.finalize (world true) leaving clusterbook (serving "10.0.0.7")

finalize-release_example :
    (t v : Store) × (svc : Service) × (o : LoadBalancer) × (fetch service
        (service_name service_ref)
        t
      ≡ ok svc)
    × (svc.load_balancer_ip ≡ "192.168.0.1")
    × (release_ips (world true) clusterbook "10.0.0" (record { ip = "10.0.0.7" }) t ≡ (ok tt, v))
    × ((world true).update load_balancer (without_finalizer (world true) leaving) v
        ≡ (ok o, left.1))
unfolding elem Balancers.finalize Balancers.clean_up Balancers.withdraw Balancers.release
    restore_service_lb_ip restore_found set_ip previous_ip lookup release_ips exchange
    ok_or_no_content
finalize-release_example =
    finalize-release (world true) (serves_services true) leaving service_ref clusterbook
      (record ingress { load_balancer_ip = "10.0.0.7" }) (serving "10.0.0.7") left.1 refl refl refl
      (cons-ne-nil "1" "0.0.0.7") refl refl
