-- ===== src/Vcluster/Application.antt =====
-- The ArgoCD Application that installs the vcluster's chart (controller/vcluster_reconciler.go).
pub mod Values
use clusterbook_operator.Prelude.{
  String, ◌<>◌, Bool, true, Option, none, some, [], ◌∷◌, ◌==◌, default_to, if◌then◌else◌,
}
use clusterbook_operator.Exec.{
  Result, ok, err, is_already_exists, wrapped, and_then, Exec, pure, fail, lift, attempt, ◌>>=◌,
}
use clusterbook_operator.Api.Meta.{ObjectName}
use clusterbook_operator.Api.Vcluster.{Vcluster}
use clusterbook_operator.World.{World, Codec, Machinery}
use clusterbook_operator.World.Data.{
  application, vcluster, Unstructured, Value, text, truth, array, object, nil, cons, Fields, end,
  field, ClusterInfo,
}
use clusterbook_operator.Shared.{default_argo_namespace}
use clusterbook_operator.Vcluster.Target.{TargetResolution}

abbrev pub default_vcluster_chart_version : String
default_vcluster_chart_version = "0.33.1"

abbrev pub vcluster_chart_repo_url : String
vcluster_chart_repo_url = "https://charts.loft.sh"

abbrev pub application_name : Vcluster → String
application_name cr = "vcluster-" <> cr.spec.cluster_name

-- The namespace of the Application and of the external kubeconfig.
abbrev pub argo_namespace : Vcluster → String
argo_namespace cr = default_to default_argo_namespace cr.spec.argo_cd.namespace

-- `m[k] = v` on a tree.
unfoldable pub put_field : String → Value → Fields → Fields
put_field k v end = field k v end
put_field k v (field j w m) = if j == k then field k v m else field j w (put_field k v m)

-- The user's values.
unfoldable pub chart_values : Codec → Option String → Result Fields
chart_values C none = ok end
chart_values C (some raw) =
    if raw == "" then ok end else wrapped "decode chartValues" (C.decode_values raw)

-- The Service's type and IP, where an IP is reserved.
unfoldable pub service_values : Machinery → String → Fields → Result Fields
service_values M ip values =
    if ip == ""
    then ok values
    else and_then
        (M.set_nested_field values (text "LoadBalancer")
          ("controlPlane" ∷ "service" ∷ "spec" ∷ "type" ∷ []))
        λ typed.
          M.set_nested_field typed (text ip)
            ("controlPlane" ∷ "service" ∷ "spec" ∷ "loadBalancerIP" ∷ [])

-- The FQDN as a further name of the API server's certificate.
unfoldable pub san_values : Machinery → Option ClusterInfo → Fields → Result Fields
san_values M none values = ok values
san_values M (some info) values =
    if info.fqdn == ""
    then ok values
    else M.set_nested_string_slice values (info.fqdn ∷ [])
        ("controlPlane" ∷ "proxy" ∷ "extraSANs" ∷ [])

-- `buildHelmValues`
unfoldable pub build_helm_values :
    Codec → Machinery → Vcluster → String → Option ClusterInfo → Result Fields
build_helm_values C M cr ip info =
    and_then (chart_values C cr.spec.chart_values)
      λ values. and_then (service_values M ip values) λ served. san_values M info served

-- `spec.source`
unfoldable pub application_source : Vcluster → Fields → Fields
application_source cr values = field "repoURL" (text vcluster_chart_repo_url) (
    field "chart" (text "vcluster") (
      field "targetRevision"
        (text (default_to default_vcluster_chart_version cr.spec.chart_version))
        (field "helm"
          (object (
            field "releaseName" (text cr.spec.cluster_name)
              (field "valuesObject" (object values) end)))
          end)))

-- `spec.syncPolicy`
abbrev pub sync_policy : Fields
sync_policy =
    field "automated" (object (field "prune" (truth true) (field "selfHeal" (truth true) end)))
      (field "syncOptions" (array (cons (text "CreateNamespace=true") nil)) end)

-- `app.Object["spec"]`
unfoldable pub application_spec : Vcluster → TargetResolution → Fields → Fields
application_spec cr target values = field "project" (text "default") (
    field "destination" (object target.destination) (
      field "source" (object (application_source cr values))
        (field "syncPolicy" (object sync_policy) end)))

module _ (W : World) where
  -- The callback of `CreateOrUpdate`.
  unfoldable pub render_application :
      Vcluster → TargetResolution → Fields → Unstructured → Result Unstructured
  render_application cr target values app =
      let tree = put_field "spec" (object (application_spec cr target values)) app.tree in
      and_then (W.machinery.set_controller_reference vcluster cr app.meta)
        λ m. ok (record { meta = m; tree = tree })

  -- An object that somebody else created in the meantime is no error.
  unfoldable pub created_as {ℓ κ} : {A : Type ℓ} {B : Type κ} → B → Result A → Exec W.State B
  created_as b (ok a) = pure b
  created_as b (err e) = if is_already_exists e then pure b else fail e

  -- `upsertApplication`
  unfoldable pub upsert_application :
      Vcluster → TargetResolution → String → Option ClusterInfo → Exec W.State String
  upsert_application cr target ip info = do
    values ← lift (build_helm_values W.codec W.machinery cr ip info)
    written ← attempt (
        W.create_or_update application
          (record { namespace = argo_namespace cr; name = application_name cr })
          (render_application cr target values))
    created_as (application_name cr) written
