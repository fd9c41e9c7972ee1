-- ===== src/Cluster/Metadata/Enrich.antt =====
-- Enrich mode: what stripping leaves of a Secret that was enriched.
use text.Mathlib.TextPositions.{starts_with-append}
use clusterbook_operator.Prelude.{
  String, ◌<>◌, [], ◌∷◌, ◌≡◌, refl, true, false, Option, none, some, ◌||◌, arith, ◌==◌, eq_iff,
  is_some, Bool-cases, inl, inr, if◌then◌else◌,
}
use clusterbook_operator.Prelude.Map.{
  Map, lookup, merge_missing, keys, lookup-insert, lookup-erase_all, lookup-erase_where,
}
use clusterbook_operator.Api.Meta.{Secret}
use clusterbook_operator.Api.Cluster.{Cluster}
use clusterbook_operator.World.Data.{ClusterInfo}
use clusterbook_operator.Owned.{
  clusterbook_prefix, annotation_owned_labels, annotation_owned_annotations,
}
use clusterbook_operator.Owned.Record.{AllKeys}
use clusterbook_operator.Cluster.Metadata.{
  Allocated, prefixed, enriched_labels, enriched_annotations, enrich_secret, strip_secret,
  has_prefix, label_cluster_type, annotation_ip, annotation_lb_range_start,
  annotation_lb_range_stop, annotation_fqdn, annotation_zone, info_annotations,
  allocated_annotations, annotation_cluster_name,
}
use clusterbook_operator.Cluster.Metadata.Lookups.{
  lookup-insert_nonempty, lookup-enriched_annotations, without_user,
}
use clusterbook_operator.Cluster.Metadata.Ownership.{
  owns_label, owns_annotation, is_record_key, lookup-own_metadata-labels,
  lookup-own_metadata-annotations, owns_annotation-own_metadata,
}

-- A key under the prefix differs from one that is not.
other_key : (k j : String) → has_prefix k ≡ true → has_prefix j ≡ false → (k == j) ≡ false
other_key k j hk hj = ground (arith, eq_iff k j)

lookup-prefixed :
    (j : String) (m : Map String) → has_prefix j ≡ false → lookup j (prefixed m) ≡ none
unfolding prefixed lookup
lookup-prefixed j [] h = refl
lookup-prefixed j ((k, v) ∷ m) h =
    rw
      (
        lookup-insert,
        other_key (clusterbook_prefix <> k) j (starts_with-append clusterbook_prefix k) h,
      )
      (lookup-prefixed j m h)

-- Every label that enrich mode writes is under the prefix.
enriched_labels-prefixed :
    (j : String) (cr : Cluster) → has_prefix j ≡ false → lookup j (enriched_labels cr) ≡ none
unfolding enriched_labels
enriched_labels-prefixed j cr h =
    rw (lookup-insert_nonempty, other_key label_cluster_type j refl h, lookup-prefixed j _ h)
      (ground arith)

-- Every annotation that the operator itself writes in enrich mode is under the prefix.
operator_annotations-prefixed :
    (j : String) (cr : Cluster) (alloc : Allocated) (info : Option ClusterInfo)
    → has_prefix j ≡ false
    → lookup j (enriched_annotations (without_user cr) alloc info) ≡ none
unfolding enriched_annotations info_annotations allocated_annotations merge_missing lookup
operator_annotations-prefixed j cr alloc none h =
    simp
      (
        lookup-insert_nonempty,
        lookup-insert,
        other_key annotation_cluster_name j refl h,
        other_key annotation_ip j refl h,
        other_key annotation_lb_range_start j refl h,
        other_key annotation_lb_range_stop j refl h,
      )
      (ground arith)
operator_annotations-prefixed j cr alloc (some i) h =
    simp
      (
        lookup-insert_nonempty,
        lookup-insert,
        other_key annotation_cluster_name j refl h,
        other_key annotation_ip j refl h,
        other_key annotation_lb_range_start j refl h,
        other_key annotation_lb_range_stop j refl h,
        other_key annotation_fqdn j refl h,
        other_key annotation_zone j refl h,
      )
      (ground arith)

-- The records are kept under the prefix.
no_record_key : (j : String) → has_prefix j ≡ false → is_record_key j ≡ false
no_record_key j h =
    rw (other_key annotation_owned_labels j refl h, other_key annotation_owned_annotations j refl h)

module _ (cr : Cluster) (alloc : Allocated) (info : Option ClusterInfo) (s : Secret)
    (j : String) where
  -- Stripping an enriched Secret leaves no label under clusterbook's prefix, and every other
  -- label as it was before the Secret was enriched, unless the Secret's old record named it.
  pub strip-enrich-labels :
      lookup j (strip_secret (enrich_secret cr alloc info s)).meta.labels
      ≡ (if has_prefix j || owns_label s.meta j then none else lookup j s.meta.labels)
  unfolding strip_secret enrich_secret
  strip-enrich-labels =
      rw (lookup-erase_where, lookup-own_metadata-labels)
        (ground (arith, enriched_labels-prefixed j cr))

  -- Where the keys of the desired annotations are not empty and hold no comma, stripping an
  -- enriched Secret leaves no annotation under clusterbook's prefix, none at a key of
  -- spec.annotations and none that the Secret's old record named, and every other annotation as
  -- it was before the Secret was enriched.
  pub strip-enrich-annotations :
      AllKeys (keys (enriched_annotations cr alloc info))
      → lookup j (strip_secret (enrich_secret cr alloc info s)).meta.annotations ≡ (
          if has_prefix j || is_some (lookup j cr.spec.annotations) || owns_annotation s.meta j
          then none
          else lookup j s.meta.annotations)
  unfolding strip_secret enrich_secret
  strip-enrich-annotations h = elim (Bool-cases (has_prefix j)) [
    | inl e ↦ rw (lookup-erase_where, e)
    | inr e ↦
        rw
          (
            lookup-erase_where,
            e,
            lookup-erase_all,
            owns_annotation-own_metadata (enriched_labels cr) (enriched_annotations cr alloc info)
                s.meta j h,
            lookup-own_metadata-annotations (enriched_labels cr)
                (enriched_annotations cr alloc info) s.meta j (no_record_key j e),
            lookup-enriched_annotations,
            operator_annotations-prefixed j cr alloc info e,
          )
          (ground arith)
  ]
