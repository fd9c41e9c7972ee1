-- ===== src/Tests/Installation.antt =====
-- The life of a vcluster in the concrete world.
use package.text.Mathlib.TextLemmas.{cons-ne-nil}
use clusterbook_operator.Prelude.{String, ◌≡◌, refl, Option, some, elem}
use clusterbook_operator.Prelude.Text.{trim_slashes}
use clusterbook_operator.Prelude.Reachable.{here, later}
use clusterbook_operator.Exec.{Result, ok, is_not_found}
use clusterbook_operator.Api.Vcluster.{Vcluster}
use clusterbook_operator.World.Data.{ClusterInfo, get_field}
use clusterbook_operator.Client.{
  Client, exchange, only_ok, get_cluster_info, new_client, tls_config,
}
use clusterbook_operator.Shared.{load_provider_config, new_clusterbook_client, custom_ca}
use clusterbook_operator.Single.{ensure_single}
use clusterbook_operator.Cluster.Reconcile.{result_option, Requeue}
use clusterbook_operator.Vcluster.Target.{resolve_target, resolve_option, get_from}
use clusterbook_operator.Vcluster.Application.{
  put_field, chart_values, service_values, san_values, build_helm_values, created_as,
  render_application, upsert_application,
}
use clusterbook_operator.Vcluster.Kubeconfig.{upstream_found, read_upstream_kubeconfig}
use clusterbook_operator.Vcluster.Reconcile.{
  wish, api_for, ensure_finalizer, ensure_reservation, allocate, waiting_status, publish, install,
  reconcile_live, reconcile_found,
}
use clusterbook_operator.Vcluster.Lifecycle.{Step, reconciled, waiting, Reach-vcluster_ip}
use clusterbook_operator.Vcluster.Run.{Run, reconcile_found-Run}
use clusterbook_operator.Tests.Fixture.{prod_info}
use clusterbook_operator.Tests.Server.{store, Store}
use clusterbook_operator.Tests.Trees.{set_at}
use clusterbook_operator.Tests.Vcluster.{dev, host, api}

abbrev built : Result (Option Client) × Store
built = api_for host dev store

abbrev allocated : Result (String × Option ClusterInfo) × Store
allocated = allocate host dev (some api) store

dev-built : api_for host dev store ≡ (ok (some api), built.1)
unfolding api_for load_provider_config new_clusterbook_client custom_ca new_client tls_config
    trim_slashes
dev-built = refl

dev-allocated : allocate host dev (some api) store ≡ (ok ("10.0.0.7", some prod_info), allocated.1)
unfolding allocate ensure_reservation ensure_single wish result_option get_cluster_info exchange
    only_ok
dev-allocated = refl

abbrev dev_waiting : Vcluster
dev_waiting = waiting_status host dev "10.0.0.7" (some prod_info) "vcluster-dev"

Reach-vcluster_ip_example : dev_waiting.status.ip ≡ "10.0.0.7"
Reach-vcluster_ip_example =
    Reach-vcluster_ip host dev dev_waiting
      (later dev dev_waiting here (cons-ne-nil "1" "0.0.0") (
        reconciled dev dev_waiting (some api) "10.0.0.7" (some prod_info) (some 15) store built.1
          store allocated.1 dev-built dev-allocated (waiting "vcluster-dev")))
      (cons-ne-nil "1" "0.0.0.7")

abbrev dev_run : Result Requeue × Store
dev_run = reconcile_found host dev store

reconcile_found-Run_example :
    (d : Vcluster) × (t : Store) × Step host dev d × Run host dev d (some 15) t dev_run.1
unfolding elem reconcile_found reconcile_live ensure_finalizer api_for load_provider_config
    new_clusterbook_client custom_ca new_client tls_config trim_slashes allocate ensure_reservation
    ensure_single wish result_option get_cluster_info exchange only_ok install publish
    resolve_target resolve_option upsert_application created_as render_application build_helm_values
    chart_values service_values san_values set_at put_field get_field read_upstream_kubeconfig
    get_from upstream_found is_not_found
reconcile_found-Run_example =
    reconcile_found-Run host dev (some 15) store dev_run.1 refl refl (cons-ne-nil "1" "0.0.0") refl
