-- ===== src/Vcluster/Child.antt =====
-- The child `ClusterbookCluster` that registers a vcluster (controller/vcluster_reconciler.go).
pub mod Registered
use clusterbook_operator.Prelude.{String, Bool, true, false, Option, none, some}
use clusterbook_operator.Prelude.Number.{pos}
use clusterbook_operator.Exec.{Result, ok, and_then, Exec, attempt, ◌>>=◌}
use clusterbook_operator.Api.Meta.{SecretObjectRef}
use clusterbook_operator.Api.Cluster.{Cluster, ClusterSpec}
use clusterbook_operator.Api.Vcluster.{Vcluster}
use clusterbook_operator.World.{World}
use clusterbook_operator.World.Data.{cluster, vcluster}
use clusterbook_operator.Shared.{cluster_scoped}
use clusterbook_operator.Vcluster.Application.{created_as}
use clusterbook_operator.Vcluster.Kubeconfig.{vcluster_external_secret_key}

-- `child.Spec`; the fields that the source does not set are zero.
unfoldable pub child_spec : Vcluster → SecretObjectRef → ClusterSpec
child_spec cr ref = record {
  network_key = "";
  skip_reservation = true;
  cluster_name = cr.spec.cluster_name;
  create_dns = false;
  use_fqdn_as_server = false;
  server_port = pos 0;
  server_subdomain = "";
  preserve_kubeconfig_server = true;
  kubeconfig_secret_ref =
      some
        (record { name = ref.name; namespace = ref.namespace; key = vcluster_external_secret_key });
  existing_secret_ref = none;
  provider_config_ref = "";
  argocd_namespace = cr.spec.argo_cd.namespace;
  labels = cr.spec.argo_cd.labels;
  annotations = cr.spec.argo_cd.annotations;
  release_on_delete = false;
  cluster_type = "vcluster";
  lb_range = none;
}

-- `registerArgoCD`
unfoldable pub register_argo_cd : Option Bool → Bool
register_argo_cd none = true
register_argo_cd (some b) = b

module _ (W : World) where
  -- The callback of `CreateOrUpdate`.
  unfoldable pub render_child : Vcluster → SecretObjectRef → Cluster → Result Cluster
  render_child cr ref child =
      and_then (W.machinery.set_controller_reference vcluster cr child.meta)
        λ m. ok (record child { meta = m; spec = child_spec cr ref })

  -- `upsertChildCluster`
  unfoldable pub upsert_child_cluster : Vcluster → SecretObjectRef → Exec W.State String
  upsert_child_cluster cr ref = do
    written ←
        attempt
          (W.create_or_update cluster (cluster_scoped cr.spec.cluster_name) (render_child cr ref))
    created_as W cr.spec.cluster_name written
