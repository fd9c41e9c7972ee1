-- ===== src/Vcluster/Reconcile/Order.antt =====
-- The order of the vcluster's handlers (controller/vcluster_reconciler.go).
use clusterbook_operator.Prelude.{
  Bool, ◌≡◌, true, Option, none, some, String, is_some, if◌then◌else◌, arith,
}
use clusterbook_operator.Exec.{
  Result, ok, err, is_not_found, Exec, pure, attempt, context, ◌>>◌, ◌>>=◌,
}
use clusterbook_operator.Exec.Inversion.{>>=-eq-ok}
use clusterbook_operator.Api.Vcluster.{Vcluster}
use clusterbook_operator.World.{World}
use clusterbook_operator.World.Data.{vcluster, ClusterInfo}
use clusterbook_operator.Client.{Client}
use clusterbook_operator.Cluster.Reconcile.{Requeue}
use clusterbook_operator.Vcluster.Target.{TargetResolution, resolve_target}
use clusterbook_operator.Vcluster.Application.{upsert_application}
use clusterbook_operator.Vcluster.Kubeconfig.{read_upstream_kubeconfig, write_external_kubeconfig}
use clusterbook_operator.Vcluster.Child.{register_argo_cd}
use clusterbook_operator.Api.Meta.{SecretObjectRef}
use clusterbook_operator.Vcluster.Reconcile.{
  vcluster_finalizer, install, publish, install_requeue, register, final_status,
}

-- The CR with the operator's finalizer removed.
abbrev pub without_finalizer : World → Vcluster → Vcluster
without_finalizer W cr = record cr {
  meta = record cr.meta {
    finalizers = W.machinery.remove_finalizer cr.meta.finalizers vcluster_finalizer;
  };
}

-- The object is deleted, or was not there.
abbrev pub is_gone : Result (Unit {0}) → Bool
is_gone (ok x) = true
is_gone (err e) = is_not_found e

module _ (W : World) (cr : Vcluster) where
  publish-requeue :
      (ip app : String) (info : Option ClusterInfo) (raw : Option String) (s u : W.State)
      (r : Requeue)
      → publish W cr ip info app raw s ≡ (ok r, u)
      → r ≡ (if is_some raw then none else some install_requeue)
  unfolding publish
  publish-requeue ip app info none s u r h = ground arith
  publish-requeue ip app info (some raw) s u r h =
      let status : SecretObjectRef → String → Exec W.State Requeue = λ ref child.
        attempt (W.update_status vcluster (final_status W cr ip info app ref child)) >> pure none in
      let child : SecretObjectRef → Exec W.State String =
        λ ref. register W (register_argo_cd cr.spec.argo_cd.register) cr ref in
      let (ref, t, first, rest) =
        >>=-eq-ok (context "write external kubeconfig" (write_external_kubeconfig W cr raw info))
          (λ ref. child ref >>= status ref) s h in
      let (name, v, second, rest') = >>=-eq-ok (child ref) (status ref) t rest in ground arith

  -- The parts of an installation.
  pub install-inv :
      (ip : String) (info : Option ClusterInfo) (s u : W.State) (r : Requeue)
      → install W cr ip info s ≡ (ok r, u)
      → (target : TargetResolution) × (app : String) × (raw : Option String) × (t v w : W.State)
        × (context "resolve target" (resolve_target W cr) s ≡ (ok target, t))
        × (context "upsert application" (upsert_application W cr target ip info) t ≡ (ok app, v))
        × (context "read upstream kubeconfig" (read_upstream_kubeconfig W target.client cr) v
            ≡ (ok raw, w))
        × (publish W cr ip info app raw w ≡ (ok r, u))
  unfolding install
  install-inv ip info s u r h =
      let read : TargetResolution → Exec W.State (Option String) = λ target.
        context "read upstream kubeconfig" (read_upstream_kubeconfig W target.client cr) in
      let create : TargetResolution → Exec W.State String =
        λ target. context "upsert application" (upsert_application W cr target ip info) in
      let (target, t, resolved, rest) =
        >>=-eq-ok (context "resolve target" (resolve_target W cr))
          (λ target. create target >>= λ app. read target >>= publish W cr ip info app) s h in
      let (app, v, created, rest') =
        >>=-eq-ok (create target) (λ app. read target >>= publish W cr ip info app) t rest in
      let (raw, w, there, rest'') = >>=-eq-ok (read target) (publish W cr ip info app) v rest' in
      (target, app, raw, t, v, w, resolved, created, there, rest'')

  -- If the installation of a vcluster succeeds, the host cluster was resolved, the Application
  -- written and the kubeconfig looked for, in this order, and the CR is looked at again after
  -- 15 seconds exactly when no kubeconfig was found.
  pub install-requeue :
      (ip : String) (info : Option ClusterInfo) (s u : W.State) (r : Requeue)
      → install W cr ip info s ≡ (ok r, u)
      → (target : TargetResolution) × (app : String) × (raw : Option String) × (t v w : W.State)
        × (context "resolve target" (resolve_target W cr) s ≡ (ok target, t))
        × (context "upsert application" (upsert_application W cr target ip info) t ≡ (ok app, v))
        × (context "read upstream kubeconfig" (read_upstream_kubeconfig W target.client cr) v
            ≡ (ok raw, w))
        × (r ≡ (if is_some raw then none else some install_requeue))
  install-requeue ip info s u r h =
      let (target, app, raw, t, v, w, resolved, created, there, published) =
        install-inv ip info s u r h in
      (
        target,
        app,
        raw,
        t,
        v,
        w,
        resolved,
        created,
        there,
        publish-requeue ip app info raw w u r published,
      )
