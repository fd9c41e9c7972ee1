-- ===== src/Vcluster/Reconcile.antt =====
-- `Reconcile` and `finalize` of `Vcluster` (controller/vcluster_reconciler.go).
pub mod Order
use clusterbook_operator.Prelude.{
  String, ◌<>◌, Bool, true, false, ℕ, not, ◌&&◌, Option, none, some, ◌==◌, if◌then◌else◌,
}
use clusterbook_operator.Exec.{
  Error, Result, ok, err, is_not_found, Exec, pure, fail, reads, attempt, context, ◌>>=◌, ◌>>◌,
}
use clusterbook_operator.Api.Meta.{
  ObjectMeta, Condition, condition_true, condition_false, SecretObjectRef,
}
use clusterbook_operator.Api.Vcluster.{Vcluster, VclusterStatus}
use clusterbook_operator.World.{World}
use clusterbook_operator.World.Data.{vcluster, cluster, application, ClusterInfo}
use clusterbook_operator.Client.{Client, get_cluster_info, release_ips}
use clusterbook_operator.Shared.{cluster_scoped, load_provider_config, new_clusterbook_client}
use clusterbook_operator.Single.{Wish, ensure_single}
use clusterbook_operator.Cluster.Reconcile.{Requeue, result_option}
use clusterbook_operator.Vcluster.Target.{TargetResolution, resolve_target}
use clusterbook_operator.Vcluster.Application.{argo_namespace, upsert_application}
use clusterbook_operator.Vcluster.Kubeconfig.{read_upstream_kubeconfig, write_external_kubeconfig}
use clusterbook_operator.Vcluster.Child.{register_argo_cd, upsert_child_cluster}

abbrev pub vcluster_finalizer : String
vcluster_finalizer = "clusterbook.stuttgart-things.com/vcluster-finalizer"

-- `15 * time.Second`
abbrev pub install_requeue : ℕ
install_requeue = 15

-- The wish behind a vcluster's reservation; its DNS record is always wanted.
unfoldable pub wish : Vcluster → Wish
wish cr = record {
  status_ip = cr.status.ip;
  network_key = cr.spec.network_key;
  name = cr.spec.cluster_name;
  create_dns = true;
}

unfoldable pub status_with_info : Option ClusterInfo → VclusterStatus → VclusterStatus
status_with_info none st = st
status_with_info (some info) st = record st { fqdn = info.fqdn; zone = info.zone }

module _ (W : World) where
  -- The clusterbook client, where the CR names a network.
  unfoldable pub api_for : Vcluster → Exec W.State (Option Client)
  api_for cr = if cr.spec.network_key == "" then pure none else do
    pc ← context "load provider config" (load_provider_config W cr.spec.provider_config_ref)
    api ← context "build clusterbook client" (new_clusterbook_client W pc)
    pure (some api)

  unfoldable pub ensure_finalizer : Vcluster → Exec W.State Vcluster
  ensure_finalizer cr =
      if W.machinery.contains_finalizer cr.meta.finalizers vcluster_finalizer
      then pure cr
      else W.update vcluster (record cr {
        meta = record cr.meta {
          finalizers = W.machinery.add_finalizer cr.meta.finalizers vcluster_finalizer;
        };
      })

  -- `ensureReservation`
  unfoldable pub ensure_reservation : Client → Vcluster → Exec W.State String
  ensure_reservation api cr = ensure_single W api (wish cr)

  -- Step 1: the IP, and what clusterbook knows.
  unfoldable pub allocate : Vcluster → Option Client → Exec W.State (String × Option ClusterInfo)
  allocate cr none = pure ("", none)
  allocate cr (some api) = do
    ip ← ensure_reservation api cr
    info ← attempt (get_cluster_info W api cr.spec.cluster_name)
    pure (ip, result_option info)

  unfoldable pub set_condition : Condition → VclusterStatus → VclusterStatus
  set_condition c st = record st { conditions = W.machinery.set_status_condition st.conditions c }

  -- The status while the chart is being installed.
  unfoldable pub waiting_status : Vcluster → String → Option ClusterInfo → String → Vcluster
  waiting_status cr ip info app = record cr {
    status =
        set_condition
          (record {
            kind = "VclusterReady";
            status = condition_false;
            reason = "WaitingForVclusterSecret";
            message =
                "secret vc-"
                <> (cr.spec.cluster_name <> (" not yet present in " <> cr.spec.target_namespace));
          })
          (record (status_with_info info (record cr.status { ip = ip })) {
            argo_cd_application_ref = app;
          });
  }

  abbrev pub done : String → String → Condition
  done kind reason = record { kind = kind; status = condition_true; reason = reason; message = "" }

  -- The third condition, where the vcluster is registered.
  unfoldable pub registered : Bool → VclusterStatus → VclusterStatus
  registered true st = set_condition (done "ArgoCDRegistered" "ChildEmitted") st
  registered false st = st

  -- The status of step 7.
  unfoldable pub final_status :
      Vcluster → String → Option ClusterInfo → String → SecretObjectRef → String → Vcluster
  final_status cr ip info app ref child = record cr {
    status = registered (register_argo_cd cr.spec.argo_cd.register) (
        set_condition (done "KubeconfigReady" "Written") (
          set_condition (done "VclusterReady" "Reconciled")
            (record (status_with_info info (record cr.status { ip = ip })) {
              kubeconfig_secret_ref = some ref;
              argo_cd_application_ref = app;
              clusterbook_cluster_ref = child;
            })));
  }

  -- Step 6: the child, where the vcluster is registered.
  unfoldable pub register : Bool → Vcluster → SecretObjectRef → Exec W.State String
  register true cr ref = context "upsert child cluster" (upsert_child_cluster W cr ref)
  register false cr ref = pure ""

  -- Steps 5 to 7, once the kubeconfig is there; before, the status is written and the CR is looked
  -- at again. A failed write of the status is only logged.
  unfoldable pub publish :
      Vcluster → String → Option ClusterInfo → String → Option String → Exec W.State Requeue
  publish cr ip info app none = do
    attempt (W.update_status vcluster (waiting_status cr ip info app))
    pure (some install_requeue)
  publish cr ip info app (some raw) = do
    ref ← context "write external kubeconfig" (write_external_kubeconfig W cr raw info)
    child ← register (register_argo_cd cr.spec.argo_cd.register) cr ref
    attempt (W.update_status vcluster (final_status cr ip info app ref child))
    pure none

  -- Steps 2 to 4.
  unfoldable pub install : Vcluster → String → Option ClusterInfo → Exec W.State Requeue
  install cr ip info = do
    target ← context "resolve target" (resolve_target W cr)
    app ← context "upsert application" (upsert_application W cr target ip info)
    raw ← context "read upstream kubeconfig" (read_upstream_kubeconfig W target.client cr)
    publish cr ip info app raw

  -- The part of `Reconcile` for a CR that is not being deleted.
  unfoldable pub reconcile_live : Vcluster → Option Client → Exec W.State Requeue
  reconcile_live found api = do
    cr ← ensure_finalizer found
    (ip, info) ← allocate cr api
    install cr ip info

  unfoldable pub unless_missing : Result (Unit {0}) → Exec W.State (Unit {0})
  unless_missing (ok x) = pure tt
  unless_missing (err e) = if is_not_found e then pure tt else fail e

  -- The child is deleted, where the status names one.
  unfoldable pub withdraw_child : Vcluster → Exec W.State (Unit {0})
  withdraw_child cr =
      if cr.status.clusterbook_cluster_ref == ""
      then pure tt
      else context "delete child cluster" (
          attempt (W.delete cluster (cluster_scoped cr.status.clusterbook_cluster_ref))
          >>= unless_missing)

  -- The Application is deleted, where the status names one.
  unfoldable pub withdraw_application : Vcluster → Exec W.State (Unit {0})
  withdraw_application cr =
      if cr.status.argo_cd_application_ref == ""
      then pure tt
      else context "delete application" (
          attempt (
            W.delete application
              (record { namespace = argo_namespace cr; name = cr.status.argo_cd_application_ref }))
          >>= unless_missing)

  unfoldable pub release : Vcluster → Option Client → Exec W.State (Unit {0})
  release cr none = pure tt
  release cr (some api) =
      if cr.spec.release_on_delete && not (cr.status.ip == "")
      then context "release IP"
          (release_ips W api cr.spec.network_key (record { ip = cr.status.ip }))
      else pure tt

  unfoldable pub clean_up : Vcluster → Option Client → Exec W.State Requeue
  clean_up cr api = do
    withdraw_child cr
    withdraw_application cr
    release cr api
    W.update vcluster (record cr {
      meta = record cr.meta {
        finalizers = W.machinery.remove_finalizer cr.meta.finalizers vcluster_finalizer;
      };
    })
    pure none

  -- `finalize`
  unfoldable pub finalize : Vcluster → Option Client → Exec W.State Requeue
  finalize cr api =
      if W.machinery.contains_finalizer cr.meta.finalizers vcluster_finalizer
      then clean_up cr api
      else pure none

  unfoldable pub reconcile_found : Vcluster → Exec W.State Requeue
  reconcile_found cr = do
    api ← api_for cr
    if cr.meta.deleting then finalize cr api else reconcile_live cr api

  unfoldable pub reconcile_get : Result Vcluster → Exec W.State Requeue
  reconcile_get (ok cr) = reconcile_found cr
  reconcile_get (err e) = if is_not_found e then pure none else fail e

  -- `Reconcile`
  unfoldable pub reconcile : String → Exec W.State Requeue
  reconcile name = do
    found ← attempt (reads (W.get vcluster (cluster_scoped name)))
    reconcile_get found
