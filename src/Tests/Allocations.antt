-- ===== src/Tests/Allocations.antt =====
-- The life of an allocation in the concrete world, and two allocations on one Secret.
use package.text.Mathlib.TextLemmas.{cons-ne-nil}
use clusterbook_operator.Exec.{ok, Result}
use clusterbook_operator.Prelude.{
  String, ◌≡◌, ◌≢◌, refl, false, true, some, none, elem, [], ◌∷◌, ◌==◌, eq_iff, arith,
}
use clusterbook_operator.Prelude.Text.{trim_slashes, contains}
use clusterbook_operator.Prelude.Map.{lookup, insert, merge}
use clusterbook_operator.Api.Meta.{fresh_meta, Secret, secret_name}
use clusterbook_operator.Api.Allocation.{Allocation}
use clusterbook_operator.World.Data.{allocation, secret}
use clusterbook_operator.Client.{
  exchange, only_ok, get_cluster_info, get_ips, new_client, tls_config, reserve_ips, ok_or_created,
  update_ip, Client, release_ips, ok_or_no_content,
}
use clusterbook_operator.Shared.{
  load_provider_config, new_clusterbook_client, custom_ca, insert_nonempty,
}
use clusterbook_operator.Single.{ensure_single, listed_single, reserve_single, first_ip}
use clusterbook_operator.Cluster.Reconcile.{result_option}
use clusterbook_operator.Cluster.Reservation.{
  find_reserved, find_ip, drift_request, send_update, same_bool,
}
use clusterbook_operator.Allocation.Sinks.{
  key_prefix, zone_labels, enrich_secret, enrich_found, enrich_cluster_secret, strip_secret,
  strip_found, strip_cluster_secret,
}
use clusterbook_operator.Allocation.Sinks.Coexist.{
  Apart, ip, label_key, enrich_secret-coexists, enrich_secret-collides,
}
use clusterbook_operator.Allocation.Reconcile as Allocations
use clusterbook_operator.Allocation.Release.{Stripped, without_finalizer, finalize-Stripped}
use clusterbook_operator.Allocation.Lifecycle.{
  Step, reconciled, Run, Reach-allocation_ip, reconcile_found-allocation-Run,
}
use clusterbook_operator.Prelude.Reachable.{here, later}
use clusterbook_operator.Tests.Fixture.{secret_ref, prod_info, foreign_secret}
use clusterbook_operator.Tests.Server.{world, store, Store, fetch, serves_secrets}

abbrev pub vip : Allocation
vip = record {
  meta = record (fresh_meta (record { namespace = ""; name = "vip" })) {
    finalizers = "clusterbook.stuttgart-things.com/allocation-finalizer" ∷ [];
  };
  spec = record {
    network_key = "10.0.0";
    name = "vip";
    create_dns = false;
    provider_config_ref = "default";
    sinks = record { config_map = none; cluster_secret_labels = some secret_ref };
    release_on_delete = true;
  };
  status = record {
    ip = "";
    fqdn = "";
    zone = "";
    config_map_ref = none;
    cluster_secret_ref = none;
    conditions = [];
  };
}

abbrev clusterbook : Client
clusterbook = record { base_url = "https://clusterbook"; tls = none }

abbrev vip_run : Result (Unit {0}) × Store
vip_run = Allocations.reconcile_found (world true) vip store

reconcile_found-allocation-Run_example :
    (d : Allocation) × (t : Store) × Step (world true) vip d × Run (world true) vip d t vip_run.1
unfolding elem Allocations.reconcile_found Allocations.reconcile_live Allocations.ensure_finalizer
    Allocations.reconcile_dns_drift Allocations.publish_config_map Allocations.publish_secret
    Allocations.ensure_reservation Allocations.wish load_provider_config new_clusterbook_client
    custom_ca new_client tls_config trim_slashes ensure_single result_option get_cluster_info
    get_ips exchange only_ok listed_single find_reserved reserve_single reserve_ips ok_or_created
    first_ip enrich_cluster_secret enrich_found find_ip drift_request send_update same_bool contains
    update_ip
reconcile_found-allocation-Run_example =
    reconcile_found-allocation-Run (world true) vip store vip_run.1 refl refl refl

abbrev named : String → Allocation
named n = record vip { spec = record vip.spec { name = n } }

differ : (a b : String) → (a == b) ≡ false → a ≢ b
differ a b e h = ground (arith, eq_iff a b)

abbrev vip_web-Apart : Apart "vip" "web"
vip_web-Apart = record {
  ne = differ "vip" "web" refl;
  ne_ip = differ "vip" "web-ip" refl;
  ne_zone = differ "vip" "web-zone" refl;
  ip_ne = differ "vip-ip" "web" refl;
  zone_ne = differ "vip-zone" "web" refl;
}

-- The Secret after the allocation "vip".
abbrev vip_secret : Secret
vip_secret = enrich_secret vip "10.0.0.7" (some prod_info) foreign_secret

enrich_secret-coexists_example :
    lookup
      (label_key vip ip)
      (enrich_secret (named "web") "10.0.0.8" (some prod_info) vip_secret).meta.labels
    ≡ some "10.0.0.7"
unfolding key_prefix enrich_secret zone_labels insert_nonempty lookup insert
enrich_secret-coexists_example =
    enrich_secret-coexists vip (named "web") "10.0.0.8" (some prod_info) vip_secret ip vip_web-Apart

enrich_secret-collides_example :
    lookup "clusterbook.stuttgart-things.com/allocation-vip-ip"
      (enrich_secret (named "vip-ip") "10.0.0.8" (some prod_info) vip_secret).meta.labels
    ≡ some "true"
unfolding key_prefix
enrich_secret-collides_example =
    enrich_secret-collides vip (named "vip-ip") "10.0.0.8" (some prod_info) vip_secret refl

-- The allocation with its IP, and the store with the Secret that it enriched.
abbrev leaving : Allocation
leaving = record vip { status = record vip.status { ip = "10.0.0.7" } }

abbrev kept : Allocation
kept = Allocations.final_status (world true) leaving "10.0.0.7" none

Reach-allocation_ip_example : kept.status.ip ≡ "10.0.0.7"
unfolding Allocations.wish Allocations.ensure_reservation ensure_single
Reach-allocation_ip_example =
    Reach-allocation_ip (world true) leaving kept
      (later leaving kept here tt
        (reconciled leaving leaving clusterbook "10.0.0.7" none store store refl))
      (cons-ne-nil "1" "0.0.0.7")

abbrev enriched : Store
enriched = record store { secret = vip_secret }

abbrev left : Result (Unit {0}) × Store
left = Allocations.finalize (world true) leaving clusterbook enriched

finalize-Stripped_example :
    (t v : Store) × (o : Secret) × (c : Allocation) × (fetch secret (secret_name secret_ref) t
      ≡ ok o)
    × Stripped vip_secret o
    × (release_ips (world true) clusterbook "10.0.0" (record { ip = "10.0.0.7" }) t ≡ (ok tt, v))
    × ((world true).update allocation (without_finalizer (world true) leaving) v ≡ (ok c, left.1))
unfolding elem Allocations.finalize Allocations.clean_up Allocations.withdraw_config_map
    Allocations.withdraw_secret Allocations.release strip_cluster_secret strip_found strip_secret
    release_ips exchange ok_or_no_content enrich_secret key_prefix merge
finalize-Stripped_example =
    finalize-Stripped (world true) (serves_secrets true) leaving secret_ref clusterbook vip_secret
      enriched left.1 refl refl refl (cons-ne-nil "1" "0.0.0.7") refl refl
