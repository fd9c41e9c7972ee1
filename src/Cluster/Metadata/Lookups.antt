-- ===== src/Cluster/Metadata/Lookups.antt =====
-- What the desired labels and annotations hold at each key.
use clusterbook_operator.Prelude.{
  String, [], ◌≡◌, refl, true, false, Option, none, some, arith, ◌==◌, if◌then◌else◌,
}
use clusterbook_operator.Prelude.Map.{
  Map, lookup, merge_missing, or_else, lookup-insert, lookup-merge, lookup-merge_missing,
}
use clusterbook_operator.Api.Cluster.{Cluster}
use clusterbook_operator.World.Data.{ClusterInfo}
use clusterbook_operator.Shared.{insert_nonempty}
use clusterbook_operator.Cluster.Metadata.{
  Allocated, annotation_ip, enriched_annotations, zone_label, rendered_labels, rendered_annotations,
  allocated_annotations, info_annotations, label_cluster_ready, label_allocation_zone,
}

pub lookup-insert_nonempty :
    (j k v : String) (m : Map String)
    → lookup j (insert_nonempty k v m)
      ≡ (if v == "" then lookup j m else if k == j then some v else lookup j m)
unfolding insert_nonempty
lookup-insert_nonempty j k v m = ground (arith, lookup-insert j k v m)

-- The zone label apart, the readiness label is the last that is written.
pub lookup-zone_label :
    (j : String) (info : Option ClusterInfo) (m : Map String)
    → (label_allocation_zone == j) ≡ false
    → lookup j (zone_label info m) ≡ lookup j m
unfolding zone_label
lookup-zone_label j none m h = refl
lookup-zone_label j (some i) m h =
    ground (arith, lookup-insert_nonempty j label_allocation_zone i.zone m)

-- The desired labels of a cluster that has answered its probe hold the readiness label with the
-- value true, whatever spec.labels says.
pub rendered_labels-ready :
    (cr : Cluster) (alloc : Allocated) (info : Option ClusterInfo)
    → cr.status.cluster_ready ≡ true
    → lookup label_cluster_ready (rendered_labels cr alloc info) ≡ some "true"
unfolding rendered_labels
rendered_labels-ready cr alloc info h =
    rw (h, lookup-zone_label label_cluster_ready info _ refl, lookup-insert) refl

-- The desired labels of a cluster that has not answered its probe hold the readiness label
-- exactly as spec.labels gives it.
pub rendered_labels-not_ready :
    (cr : Cluster) (alloc : Allocated) (info : Option ClusterInfo)
    → cr.status.cluster_ready ≡ false
    → lookup label_cluster_ready (rendered_labels cr alloc info)
      ≡ lookup label_cluster_ready cr.spec.labels
unfolding rendered_labels lookup
rendered_labels-not_ready cr alloc info h =
    rw (h, lookup-zone_label label_cluster_ready info _ refl, lookup-merge)
      (simp (lookup-insert_nonempty, lookup-insert) (ground arith))

-- The annotations of the operator alone: those of a CR with no `spec.annotations`.
abbrev pub without_user : Cluster → Cluster
without_user cr = record cr { spec = record cr.spec { annotations = [] } }

-- At every key the desired annotation is the one that a CR without spec.annotations would get,
-- and where it would get none, the one of spec.annotations.
pub lookup-rendered_annotations :
    (j : String) (cr : Cluster) (alloc : Allocated) (info : Option ClusterInfo) (kc_hash : String)
    → lookup j (rendered_annotations cr alloc info kc_hash)
      ≡ or_else
          (lookup j (rendered_annotations (without_user cr) alloc info kc_hash))
          (lookup j cr.spec.annotations)
unfolding rendered_annotations merge_missing
lookup-rendered_annotations j cr alloc info kc_hash = lookup-merge_missing j _ cr.spec.annotations

-- The same in enrich mode.
pub lookup-enriched_annotations :
    (j : String) (cr : Cluster) (alloc : Allocated) (info : Option ClusterInfo)
    → lookup j (enriched_annotations cr alloc info)
      ≡ or_else
          (lookup j (enriched_annotations (without_user cr) alloc info))
          (lookup j cr.spec.annotations)
unfolding enriched_annotations merge_missing
lookup-enriched_annotations j cr alloc info = lookup-merge_missing j _ cr.spec.annotations

-- The desired annotation at clusterbook's ip key is the allocated IP if there is one, and
-- otherwise the one of spec.annotations.
pub rendered_annotations-ip :
    (cr : Cluster) (alloc : Allocated) (info : Option ClusterInfo) (kc_hash : String)
    → lookup annotation_ip (rendered_annotations cr alloc info kc_hash)
      ≡ (if alloc.ip == "" then lookup annotation_ip cr.spec.annotations else some alloc.ip)
unfolding rendered_annotations info_annotations allocated_annotations lookup
rendered_annotations-ip cr alloc none kc_hash =
    simp (lookup-merge_missing, lookup-insert_nonempty, lookup-insert) (ground arith)
rendered_annotations-ip cr alloc (some i) kc_hash =
    simp (lookup-merge_missing, lookup-insert_nonempty, lookup-insert) (ground arith)
