-- ===== src/Cluster/Metadata.antt =====
-- The labels and annotations of the ArgoCD cluster Secret: what `upsertArgoSecret`,
-- `enrichExistingSecret` and `stripEnrichedMetadata` compute (controller/reconciler.go).
pub mod Lookups
pub mod Ownership
pub mod History
pub mod Enrich
use clusterbook_operator.Prelude.{
  String, ◌<>◌, Bool, [], ◌∷◌, Option, none, some, starts_with, value_or, if◌then◌else◌,
}
use clusterbook_operator.Prelude.Map.{
  Map, lookup, insert, merge, merge_missing, erase_all, erase_where,
}
use clusterbook_operator.Api.Meta.{ObjectMeta, Secret}
use clusterbook_operator.Api.Cluster.{Cluster}
use clusterbook_operator.World.Data.{ClusterInfo}
use clusterbook_operator.Owned.{
  clusterbook_prefix, annotation_owned_labels, annotation_owned_annotations, parse_owned_record,
  apply_owned, record_owned,
}
use clusterbook_operator.Shared.{insert_nonempty}

abbrev pub argo_secret_type_label : String
argo_secret_type_label = "argocd.argoproj.io/secret-type"

abbrev pub argo_secret_type_value : String
argo_secret_type_value = "cluster"

abbrev pub annotation_ip : String
annotation_ip = clusterbook_prefix <> "ip"

abbrev pub annotation_fqdn : String
annotation_fqdn = clusterbook_prefix <> "fqdn"

abbrev pub annotation_zone : String
annotation_zone = clusterbook_prefix <> "zone"

abbrev pub annotation_cluster_name : String
annotation_cluster_name = clusterbook_prefix <> "cluster-name"

abbrev pub annotation_lb_range_start : String
annotation_lb_range_start = clusterbook_prefix <> "lb-range-start"

abbrev pub annotation_lb_range_stop : String
annotation_lb_range_stop = clusterbook_prefix <> "lb-range-stop"

abbrev pub annotation_kubeconfig_hash : String
annotation_kubeconfig_hash = clusterbook_prefix <> "kubeconfig-hash"

abbrev pub label_cluster_type : String
label_cluster_type = clusterbook_prefix <> "cluster-type"

abbrev pub label_allocation_ip : String
label_allocation_ip = clusterbook_prefix <> "allocation-ip"

abbrev pub label_allocation_zone : String
label_allocation_zone = clusterbook_prefix <> "allocation-zone"

abbrev pub label_cluster_ready : String
label_cluster_ready = clusterbook_prefix <> "cluster-ready"

-- `allocation`
pub record Allocated : Type 0 where
  pub ip : String
  pub lb_range_start : String
  pub lb_range_stop : String

-- `if info != nil { if info.Zone != "" { labels[…] = info.Zone } }`
unfoldable pub zone_label : Option ClusterInfo → Map String → Map String
zone_label none m = m
zone_label (some info) m = insert_nonempty label_allocation_zone info.zone m

-- `if info != nil { … }` for the FQDN and zone annotations.
unfoldable pub info_annotations : Option ClusterInfo → Map String → Map String
info_annotations none m = m
info_annotations (some info) m =
    insert_nonempty annotation_zone info.zone (insert_nonempty annotation_fqdn info.fqdn m)

-- The labels that `upsertArgoSecret` wants, in the order in which it writes them.
unfoldable pub rendered_labels : Cluster → Allocated → Option ClusterInfo → Map String
rendered_labels cr alloc info =
    let typed = insert argo_secret_type_label argo_secret_type_value [] in
    let with_ip = insert_nonempty label_allocation_ip alloc.ip typed in
    let with_type = insert_nonempty label_cluster_type cr.spec.cluster_type with_ip in
    let with_user = merge with_type cr.spec.labels in
    let with_ready =
      if cr.status.cluster_ready then insert label_cluster_ready "true" with_user else with_user in
    zone_label info with_ready

-- The IP and the range annotations.
unfoldable pub allocated_annotations : Allocated → Map String → Map String
allocated_annotations alloc m = insert_nonempty annotation_lb_range_stop alloc.lb_range_stop (
    insert_nonempty annotation_lb_range_start alloc.lb_range_start
      (insert_nonempty annotation_ip alloc.ip m))

-- The annotations that `upsertArgoSecret` wants.
unfoldable pub rendered_annotations : Cluster → Allocated → Option ClusterInfo → String → Map String
rendered_annotations cr alloc info kc_hash =
    let named = insert annotation_cluster_name cr.spec.cluster_name [] in
    let hashed = insert_nonempty annotation_kubeconfig_hash kc_hash named in
    merge_missing (info_annotations info (allocated_annotations alloc hashed)) cr.spec.annotations

-- The three calls that move a Secret's metadata to the desired labels and annotations. The
-- previous records are read before the new ones are written.
unfoldable pub own_metadata : Map String → Map String → ObjectMeta → ObjectMeta
own_metadata labels annotations m =
    let prev_labels = value_or "" (lookup annotation_owned_labels m.annotations) in
    let prev_annotations = value_or "" (lookup annotation_owned_annotations m.annotations) in
    record m {
      labels = apply_owned m.labels prev_labels labels;
      annotations =
          record_owned (apply_owned m.annotations prev_annotations annotations) labels annotations;
    }

-- The mutation of `upsertArgoSecret`, up to the controller reference.
unfoldable pub render_secret : Cluster → Map String → Map String → String → String → Secret → Secret
render_secret cr labels annotations server cfg_json s = record s {
  meta = own_metadata labels annotations s.meta;
  string_data = ("name", cr.spec.cluster_name) ∷ ("server", server) ∷ ("config", cfg_json) ∷ [];
}

-- `for k, v := range cr.Spec.Labels { labels[clusterbookPrefix+k] = v }`
unfoldable pub prefixed : Map String → Map String
prefixed [] = []
prefixed ((k, v) ∷ m) = insert (clusterbook_prefix <> k) v (prefixed m)

-- The labels that `enrichExistingSecret` wants.
unfoldable pub enriched_labels : Cluster → Map String
enriched_labels cr =
    insert_nonempty label_cluster_type cr.spec.cluster_type (prefixed cr.spec.labels)

-- The annotations that `enrichExistingSecret` wants.
unfoldable pub enriched_annotations : Cluster → Allocated → Option ClusterInfo → Map String
enriched_annotations cr alloc info =
    let named = insert annotation_cluster_name cr.spec.cluster_name [] in
    merge_missing (info_annotations info (allocated_annotations alloc named)) cr.spec.annotations

-- What `enrichExistingSecret` makes of the Secret that it read.
unfoldable pub enrich_secret : Cluster → Allocated → Option ClusterInfo → Secret → Secret
enrich_secret cr alloc info s = record s {
  meta = own_metadata (enriched_labels cr) (enriched_annotations cr alloc info) s.meta;
}

abbrev pub has_prefix : String → Bool
has_prefix k = starts_with k clusterbook_prefix

-- What `stripEnrichedMetadata` makes of the Secret that it read.
unfoldable pub strip_secret : Secret → Secret
strip_secret s =
    let m = s.meta in
    let owned =
      parse_owned_record (value_or "" (lookup annotation_owned_annotations m.annotations)) in
    record s {
      meta = record m {
        labels = erase_where has_prefix m.labels;
        annotations = erase_where has_prefix (erase_all owned m.annotations);
      };
    }
