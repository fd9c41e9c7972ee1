-- ===== src/Vcluster/Finished.antt =====
-- The Application, the kubeconfig and the child CR of a vcluster, as a reconcile writes them
-- (controller/vcluster_reconciler.go).
use clusterbook_operator.Prelude.{
  String, ◌≡◌, refl, ap, subst, ◌∙◌, Bool, true, false, Option, some, none, Bool-cases, inl, inr,
}
use clusterbook_operator.Exec.{
  Result, ok, err, is_already_exists, Exec, pure, fail, lift, attempt, context, ◌>>=◌, ◌>>◌,
}
use clusterbook_operator.Exec.Inversion.{is_written, >>=-eq-ok, context-eq-ok, result_or}
use clusterbook_operator.Api.Meta.{Secret, SecretObjectRef, secret_name}
use clusterbook_operator.Api.Cluster.{Cluster}
use clusterbook_operator.Api.Vcluster.{Vcluster}
use clusterbook_operator.World.{World}
use clusterbook_operator.World.Data.{
  vcluster, cluster, secret, application, ClusterInfo, Fields, Unstructured,
}
use clusterbook_operator.Client.Requests.{lift-eq-ok}
use clusterbook_operator.Shared.{cluster_scoped}
use clusterbook_operator.Cluster.Reconcile.{Requeue}
use clusterbook_operator.Vcluster.Target.{TargetResolution}
use clusterbook_operator.Vcluster.Application.{
  argo_namespace, application_name, build_helm_values, render_application, created_as,
  upsert_application,
}
use clusterbook_operator.Vcluster.Kubeconfig.{
  external_server_url, rewrite_kubeconfig_server, external_ref, render_external,
  write_external_kubeconfig,
}
use clusterbook_operator.Vcluster.Child.{register_argo_cd, render_child, upsert_child_cluster}
use clusterbook_operator.Vcluster.Reconcile.{
  install_requeue, waiting_status, final_status, register, publish,
}
use clusterbook_operator.Vcluster.Lifecycle.{Written, waiting, finished}

module _ (W : World) where
  created_as-written :
      {A B : Type 0} (b b' : B) (a : Result A) (s t : W.State)
      → created_as W b a s ≡ (ok b', t)
      → (is_written a ≡ true) × (b ≡ b') × (s ≡ t)
  unfolding created_as
  created_as-written {B = B} b b' (ok o) s t h = (
    refl,
    ap (λ (p : Result B × W.State). result_or b' p.0) h,
    ap (λ (p : Result B × W.State). p.1) h,
  )
  created_as-written {B = B} b b' (err e) s t h = elim (Bool-cases (is_already_exists e)) [
    | inl y ↦
        let done : pure b s ≡ (ok b', t) = rw y at h in
        (
          y,
          ap (λ (p : Result B × W.State). result_or b' p.0) done,
          ap (λ (p : Result B × W.State). p.1) done,
        )
    | inr other ↦ let refused : fail e s ≡ (ok b', t) = rw other at h in cc
  ]

  -- An object that is written, with the name that is handed back for it.
  put-written :
      {A B : Type 0} (put : Exec W.State A) (b b' : B) (s t : W.State)
      → (attempt put >>= created_as W b) s ≡ (ok b', t)
      → (a : Result A) × (put s ≡ (a, t)) × (is_written a ≡ true) × (b ≡ b')
  put-written put b b' s t h =
      let (a, u, asked, rest) = >>=-eq-ok (attempt put) (created_as W b) s h in
      let (fine, named, same) = created_as-written b b' a u t rest in
      (a, (λ i. (result_or a (asked i).0, (asked i).1)) ∙ (λ i. (a, same i)), fine, named)

  -- The child CR, where the vcluster is registered.
  pub data ChildWritten (cr : Vcluster) (ref : SecretObjectRef)
      : Bool → String → W.State → W.State → Type 0 where
    unregistered : (s : W.State) → ChildWritten cr ref false "" s s
    child_written :
        (answer : Result Cluster) (s t : W.State)
        → W.create_or_update cluster
            (record { namespace = ""; name = cr.spec.cluster_name })
            (render_child W cr ref)
            s
          ≡ (answer, t)
        → is_written answer ≡ true
        → ChildWritten cr ref true cr.spec.cluster_name s t

  register-ChildWritten :
      (cr : Vcluster) (ref : SecretObjectRef) (b : Bool) (name : String) (s t : W.State)
      → register W b cr ref s ≡ (ok name, t)
      → ChildWritten cr ref b name s t
  unfolding register upsert_child_cluster
  register-ChildWritten cr ref false name s t h =
      subst (λ n. ChildWritten cr ref false n s t)
        (ap (λ (p : Result String × W.State). result_or name p.0) h)
        (subst (λ v. ChildWritten cr ref false "" s v) (ap (λ (p : Result String × W.State). p.1) h)
          (unregistered s))
  register-ChildWritten cr ref true name s t h =
      let put =
        W.create_or_update cluster (cluster_scoped cr.spec.cluster_name) (render_child W cr ref) in
      let (answer, wrote, fine, named) =
        put-written put cr.spec.cluster_name name s t
          (context-eq-ok "upsert child cluster" (upsert_child_cluster W cr ref) s h) in
      subst (λ n. ChildWritten cr ref true n s t) named (child_written answer s t wrote fine)

  -- What follows once the kubeconfig was looked for, with the CR whose status is written.
  pub data Finished (cr : Vcluster) (ip : String) (info : Option ClusterInfo)
      : Option String → Requeue → Vcluster → W.State → W.State → Type 0 where
    not_yet :
        (s : W.State)
        → Finished cr ip info none (some 15) (waiting_status W cr ip info (application_name cr)) s s
    published :
        (raw rewritten child : String) (answer : Result Secret) (s t u : W.State)
        → rewrite_kubeconfig_server W.codec raw (external_server_url cr info) ≡ ok rewritten
        → W.create_or_update secret
            (secret_name (external_ref W cr))
            (render_external W cr rewritten)
            s
          ≡ (answer, t)
        → is_written answer ≡ true
        → ChildWritten cr (external_ref W cr) (register_argo_cd cr.spec.argo_cd.register) child t u
        → Finished cr ip info
            (some raw)
            none
            (final_status W cr ip info (application_name cr) (external_ref W cr) child)
            s
            u

  pub publish-Finished :
      (cr : Vcluster) (ip : String) (info : Option ClusterInfo) (raw : Option String) (r : Requeue)
      (s u : W.State)
      → publish W cr ip info (application_name cr) raw s ≡ (ok r, u)
      → (d : Vcluster) × (t : W.State) × Finished cr ip info raw r d s t
        × Written W cr ip info r d
        × ((W.update_status vcluster d t).1 ≡ u)
  unfolding publish write_external_kubeconfig
  publish-Finished cr ip info none r s u h =
      let d = waiting_status W cr ip info (application_name cr) in
      let same : some install_requeue ≡ r =
        ap (λ (p : Result Requeue × W.State). result_or r p.0) h in
      (
        d,
        s,
        subst (λ q. Finished cr ip info none q d s s) same (not_yet s),
        subst (λ q. Written W cr ip info q d) same (waiting (application_name cr)),
        ap (λ (p : Result Requeue × W.State). p.1) h,
      )
  publish-Finished cr ip info (some raw) r s u h =
      let app = application_name cr in
      let child : SecretObjectRef → Exec W.State String =
        λ ref. register W (register_argo_cd cr.spec.argo_cd.register) cr ref in
      let status : SecretObjectRef → String → Exec W.State Requeue = λ ref child.
        attempt (W.update_status vcluster (final_status W cr ip info app ref child)) >> pure none in
      let rewritten = rewrite_kubeconfig_server W.codec raw (external_server_url cr info) in
      let put : String → Exec W.State SecretObjectRef = λ text.
        attempt
          (W.create_or_update secret (secret_name (external_ref W cr)) (render_external W cr text))
        >>= created_as W (external_ref W cr) in
      let (ref, t, wrote, rest) =
        >>=-eq-ok (context "write external kubeconfig" (write_external_kubeconfig W cr raw info))
          (λ ref. child ref >>= status ref) s h in
      let (name, v, registered, rest') = >>=-eq-ok (child ref) (status ref) t rest in
      let (text, w, rewrote, rest'') =
        >>=-eq-ok (context "rewrite kubeconfig" (lift rewritten)) put s (
          context-eq-ok "write external kubeconfig" (write_external_kubeconfig W cr raw info) s
            wrote) in
      let (read, stay) = lift-eq-ok "rewrite kubeconfig" rewritten s w text rewrote in
      let (answer, asked, fine, named) =
        put-written
          (W.create_or_update secret (secret_name (external_ref W cr)) (render_external W cr text))
          (external_ref W cr) ref s t (ap (put text) stay ∙ rest'') in
      let d = final_status W cr ip info app (external_ref W cr) name in
      let same : none ≡ r = ap (λ (p : Result Requeue × W.State). result_or r p.0) rest' in
      (
        d,
        v,
        subst (λ q. Finished cr ip info (some raw) q d s v) same
            (published raw text name answer s t v read asked fine (
              register-ChildWritten cr (external_ref W cr)
                (register_argo_cd cr.spec.argo_cd.register) name t v
                (ap (λ (x : SecretObjectRef). child x t) named ∙ registered))),
        subst (λ q. Written W cr ip info q d) same (finished app name (external_ref W cr)),
        ap
              (λ (x : SecretObjectRef).
                (W.update_status vcluster (final_status W cr ip info app x name) v).1)
              named
            ∙ ap (λ (p : Result Requeue × W.State). p.1) rest',
      )

  pub application-written :
      (cr : Vcluster) (target : TargetResolution) (ip name : String) (info : Option ClusterInfo)
      (s t : W.State)
      → upsert_application W cr target ip info s ≡ (ok name, t)
      → (values : Fields) × (answer : Result Unstructured) × (build_helm_values W.codec W.machinery
            cr ip info
          ≡ ok values)
        × (W.create_or_update application
              (record { namespace = argo_namespace cr; name = application_name cr })
              (render_application W cr target values)
              s
            ≡ (answer, t))
        × (is_written answer ≡ true)
        × (application_name cr ≡ name)
  unfolding upsert_application
  application-written cr target ip name info s t h =
      let values_of = build_helm_values W.codec W.machinery cr ip info in
      let put : Fields → Exec W.State Unstructured = λ values.
        W.create_or_update application
          (record { namespace = argo_namespace cr; name = application_name cr })
          (render_application W cr target values) in
      let step : Fields → Exec W.State String =
        λ values. attempt (put values) >>= created_as W (application_name cr) in
      let (values, u, built, rest) = >>=-eq-ok (lift values_of) step s h in
      let read : values_of ≡ ok values = ap (λ (p : Result Fields × W.State). p.0) built in
      let stay : s ≡ u = ap (λ (p : Result Fields × W.State). p.1) built in
      let (answer, wrote, fine, named) =
        put-written (put values) (application_name cr) name s t (ap (step values) stay ∙ rest) in
      (values, answer, read, wrote, fine, named)
