-- ===== src/Tests/Vcluster.antt =====
-- A vcluster on a concrete world, whose chart values and kubeconfigs are written for real.
use package.text.Mathlib.TextLemmas.{cons-ne-nil}
use clusterbook_operator.Prelude.{
  String, true, List, [], ◌∷◌, none, some, ◌≡◌, refl, is_some, Option, if◌then◌else◌,
}
use clusterbook_operator.Exec.{Result, ok, err, message, Exec, context, is_not_found}
use clusterbook_operator.Prelude.Number.{pos, show}
use clusterbook_operator.Prelude.Map.{lookup, insert}
use clusterbook_operator.World.{World, Codec}
use clusterbook_operator.World.Data.{
  Kind, Obj, application, Fields, text, array, object, nil, cons, end, field, get_field, nested,
  diverges,
}
use clusterbook_operator.Api.Meta.{ObjectName, fresh_meta, SecretObjectRef}
use clusterbook_operator.Api.Vcluster.{Vcluster}
use clusterbook_operator.Cluster.Reconcile.{Requeue}
use clusterbook_operator.Vcluster.Application.{
  build_helm_values, chart_values, service_values, san_values, put_field, upsert_application,
  created_as, render_application,
}
use clusterbook_operator.Vcluster.Application.Values.{
  build_helm_values-operator, build_helm_values-user, type_path, ip_path, san_path,
}
use clusterbook_operator.Tests.Fixture.{prod_info, prod}
use clusterbook_operator.Tests.Server.{world, store}
use clusterbook_operator.Vcluster.Target.{
  TargetResolution, resolve_target, resolve_option, get_from,
}
use clusterbook_operator.Vcluster.Kubeconfig.{
  read_upstream_kubeconfig, upstream_found, external_server_url, rewrite_kubeconfig_server,
  write_server, rewrite_context,
}
use clusterbook_operator.Vcluster.Reconcile.{finalize, install, install_requeue, publish}
use clusterbook_operator.Vcluster.Reconcile.Order.{install-requeue}
use clusterbook_operator.Client.{Client}
use clusterbook_operator.Tests.Trees.{machinery, machinery-SetsFields, fields_of, set_at}
use clusterbook_operator.Tests.Kubeconfig.{codec, codec-ReadsBack}
use clusterbook_operator.Api.Cluster.{Cluster}
use clusterbook_operator.Cluster.Server.{
  Extracted, argo_config_from_kubeconfig, build_server_url, argo_config_from, extract, argo_config,
}
use clusterbook_operator.Vcluster.Child.{child_spec}
use clusterbook_operator.Vcluster.Child.Registered.{child-server, child-server-wildcard}

abbrev pub dev : Vcluster
dev = record {
  meta = record (fresh_meta (record { namespace = ""; name = "dev" })) {
    finalizers = "clusterbook.stuttgart-things.com/vcluster-finalizer" ∷ [];
  };
  spec = record {
    cluster_name = "dev";
    target_cluster_ref = none;
    target_namespace = "vc-dev";
    chart_version = "";
    chart_values = some "raw";
    network_key = "10.0.0";
    server_port = pos 0;
    provider_config_ref = "default";
    argo_cd = record { namespace = ""; register = none; labels = []; annotations = [] };
    release_on_delete = true;
  };
  status = record {
    ip = "10.0.0.7";
    fqdn = "";
    zone = "";
    kubeconfig_secret_ref = none;
    argo_cd_application_ref = "vcluster-dev";
    clusterbook_cluster_ref = "dev";
    conditions = [];
  };
}

-- The user asks for a type of his own, and for two replicas' worth of something else.
abbrev values_codec : Codec
values_codec = record (world true).codec {
  decode_values = λ raw. ok (
      field "controlPlane"
        (object (
          field "service" (object (field "spec" (object (field "type" (text "NodePort") end)) end))
            (field "distro" (text "k3s") end)))
        end);
}

abbrev user_path : List String
user_path = "controlPlane" ∷ "distro" ∷ []

abbrev dev_values : Fields
dev_values = fields_of (build_helm_values values_codec machinery dev "10.0.0.7" (some prod_info))

build_helm_values-operator_example :
    (nested type_path dev_values ≡ some (text "LoadBalancer"))
    × (nested ip_path dev_values ≡ some (text "10.0.0.7"))
    × (nested san_path dev_values ≡ some (array (cons (text "*.prod.example.com") nil)))
unfolding build_helm_values chart_values service_values san_values set_at put_field get_field
build_helm_values-operator_example =
    build_helm_values-operator values_codec machinery machinery-SetsFields dev "10.0.0.7" dev_values
      prod_info (cons-ne-nil "1" "0.0.0.7") (cons-ne-nil "*" ".prod.example.com") refl

build_helm_values-user_example :
    (values : Fields) × (chart_values values_codec dev.spec.chart_values ≡ ok values)
    × (nested user_path dev_values ≡ nested user_path values)
unfolding build_helm_values chart_values service_values san_values set_at put_field get_field
    diverges
build_helm_values-user_example =
    build_helm_values-user values_codec machinery machinery-SetsFields dev "10.0.0.7" dev_values
      (some prod_info) user_path refl refl refl refl

abbrev dev_ref : SecretObjectRef
dev_ref = record { name = "vc-dev-external"; namespace = "argocd" }

abbrev dev_child : Cluster
dev_child = record prod { spec = child_spec dev dev_ref }

abbrev dev_url : String
dev_url = "https://*.prod.example.com:443"

abbrev text_of : Result String → String
text_of (ok b) = b
text_of (err e) = ""

abbrev dev_extracted : Extracted
dev_extracted = record { server = "raw"; config = "t"; ca_data = "" }

child-server_example :
    (y : Extracted) × (argo_config_from_kubeconfig codec dev_url ≡ ok y)
    × (build_server_url dev_child "" y.server none ≡ external_server_url dev (some prod_info))
    × (y.config ≡ dev_extracted.config)
unfolding rewrite_kubeconfig_server rewrite_context write_server external_server_url
    argo_config_from_kubeconfig argo_config_from extract argo_config lookup insert show
child-server_example =
    child-server dev dev_ref dev_child refl codec "raw" dev_url "" (some prod_info) none
      dev_extracted codec-ReadsBack refl refl

-- The world, with ArgoCD's Applications.
abbrev create_application :
    (k : Kind) → ObjectName → (Obj k → Result (Obj k)) → Exec (world true).State (Obj k)
create_application application n f s = (f (record { meta = fresh_meta n; tree = end }), s)
create_application k n f s = (err (message "unsupported"), s)

abbrev pub host : World
host = record (world true) { create_or_update = create_application; machinery = machinery }

abbrev pub api : Client
api = record { base_url = "https://clusterbook"; tls = none }

abbrev ended : Result Requeue × host.State
ended = finalize host dev (some api) store

install-requeue_example :
    (target : TargetResolution) × (app : String) × (raw : Option String) × (t v w : host.State)
    × (context "resolve target" (resolve_target host dev) store ≡ (ok target, t))
    × (context "upsert application" (upsert_application host dev target "10.0.0.7" none) t
        ≡ (ok app, v))
    × (context "read upstream kubeconfig" (read_upstream_kubeconfig host target.client dev) v
        ≡ (ok raw, w))
    × (some 15 ≡ (if is_some raw then none else some install_requeue))
unfolding install publish resolve_target resolve_option upsert_application created_as
    render_application build_helm_values chart_values service_values san_values set_at put_field
    get_field read_upstream_kubeconfig get_from upstream_found is_not_found
install-requeue_example =
    install-requeue host dev "10.0.0.7" none store (install host dev "10.0.0.7" none store).1
      (some 15) refl

child-server-wildcard_example :
    (y : Extracted) × (argo_config_from_kubeconfig codec dev_url ≡ ok y)
    × (build_server_url dev_child "" y.server none ≡ "https://*.prod.example.com:443")
unfolding rewrite_kubeconfig_server rewrite_context write_server external_server_url
    argo_config_from_kubeconfig argo_config_from extract argo_config lookup insert show
child-server-wildcard_example =
    child-server-wildcard dev dev_ref dev_child refl codec "raw" dev_url "" "prod.example.com"
      prod_info none dev_extracted codec-ReadsBack refl refl refl
