-- ===== src/Tests/Fixture.antt =====
-- Objects to run the definitions on.
use clusterbook_operator.Prelude.{String, true, false, none, some, [], ◌∷◌}
use clusterbook_operator.Prelude.Map.{Map}
use clusterbook_operator.Prelude.Number.{pos}
use clusterbook_operator.Api.Meta.{fresh_meta, SecretKeyRef, SecretObjectRef, Secret, Service}
use clusterbook_operator.Api.Cluster.{ClusterSpec, ClusterStatus, Cluster, LbRange}
use clusterbook_operator.Api.LoadBalancer.{ServiceObjectRef, LoadBalancer}
use clusterbook_operator.World.Data.{IpInfo, ClusterInfo}
use clusterbook_operator.Cluster.Metadata.{Allocated}

abbrev pub secret_ref : SecretObjectRef
secret_ref = record { name = "prod"; namespace = "argocd" }

abbrev pub kubeconfig_ref : SecretKeyRef
kubeconfig_ref = record { name = "kc"; namespace = "argocd"; key = "" }

abbrev pub team_labels : Map String
team_labels = ("team", "infra") ∷ []

abbrev pub owner_annotations : Map String
owner_annotations = ("owner", "ops") ∷ []

abbrev pub edge_range : LbRange
edge_range = record { count = pos 3; start = ""; stop = "" }

abbrev pub pinned : LbRange
pinned = record { count = pos 0; start = "10.0.0.8"; stop = "10.0.0.9" }

abbrev pub cluster_spec : ClusterSpec
cluster_spec = record {
  network_key = "10.0.0";
  skip_reservation = false;
  cluster_name = "prod";
  create_dns = true;
  use_fqdn_as_server = true;
  server_port = pos 0;
  server_subdomain = "";
  preserve_kubeconfig_server = false;
  kubeconfig_secret_ref = some kubeconfig_ref;
  existing_secret_ref = none;
  provider_config_ref = "default";
  argocd_namespace = "";
  labels = team_labels;
  annotations = owner_annotations;
  release_on_delete = true;
  cluster_type = "rke2";
  lb_range = some pinned;
}

abbrev pub cluster_status : ClusterStatus
cluster_status = record {
  ip = "";
  fqdn = "";
  zone = "";
  lb_range_start = "";
  lb_range_stop = "";
  secret_name = "";
  kubeconfig_hash = "";
  cluster_ready = false;
  conditions = [];
}

abbrev pub prod : Cluster
prod = record {
  meta = record (fresh_meta (record { namespace = ""; name = "prod" })) {
    finalizers = "clusterbook.stuttgart-things.com/finalizer" ∷ [];
  };
  spec = cluster_spec;
  status = cluster_status;
}

-- The same cluster after its probe was answered.
abbrev pub ready_prod : Cluster
ready_prod = record prod { status = record cluster_status { cluster_ready = true } }

-- The same cluster once it holds an IP.
abbrev pub reserved_prod : Cluster
reserved_prod = record prod { status = record cluster_status { ip = "10.0.0.7" } }

-- A kind cluster, which reserves nothing.
abbrev pub kind_cluster : Cluster
kind_cluster = record prod {
  spec = record cluster_spec { network_key = ""; cluster_type = "kind" };
}

abbrev pub prod_allocated : Allocated
prod_allocated = record { ip = "10.0.0.7"; lb_range_start = "10.0.0.8"; lb_range_stop = "10.0.0.9" }

abbrev pub prod_info : ClusterInfo
prod_info = record { cluster = "prod"; fqdn = "*.prod.example.com"; zone = "example.com" }

abbrev pub prod_entry : IpInfo
prod_entry = record {
  ip = "10.0.0.7";
  digit = "7";
  status = "ASSIGNED:DNS";
  cluster = "prod";
  fqdn = "";
}

abbrev pub foreign_secret : Secret
foreign_secret = record {
  meta = record (fresh_meta (record { namespace = "argocd"; name = "prod" })) {
    labels = ("argocd.argoproj.io/secret-type", "cluster") ∷ ("tier", "gold") ∷ [];
    annotations = ("note", "keep") ∷ [];
  };
  contents = ("server", "https://1.2.3.4") ∷ ("kubeconfig", "s3cret") ∷ [];
  string_data = [];
}

abbrev pub service_ref : ServiceObjectRef
service_ref = record { name = "ingress"; namespace = "web" }

abbrev pub ingress : Service
ingress = record {
  meta = fresh_meta (record { namespace = "web"; name = "ingress" });
  load_balancer_ip = "192.168.0.1";
}

abbrev pub balancer : LoadBalancer
balancer = record {
  meta = record (fresh_meta (record { namespace = ""; name = "ingress" })) {
    finalizers = "clusterbook.stuttgart-things.com/lb-finalizer" ∷ [];
  };
  spec = record {
    network_key = "10.0.0";
    name = "ingress";
    create_dns = false;
    provider_config_ref = "default";
    cilium_pool = none;
    service_ref = none;
    release_on_delete = true;
  };
  status = record {
    ip = "";
    fqdn = "";
    zone = "";
    pool_name = "";
    target_service_ref = none;
    conditions = [];
  };
}
