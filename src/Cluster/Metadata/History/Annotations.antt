-- ===== src/Cluster/Metadata/History/Annotations.antt =====
-- The annotations of one Secret through the same histories.
use clusterbook_operator.Prelude.{
  String, ◌≡◌, refl, false, none, some, List, arith, ◌==◌, eq_iff, if◌then◌else◌,
}
use clusterbook_operator.Prelude.Map.{lookup, lookup-insert, lookup-erase}
use clusterbook_operator.Api.Meta.{ObjectMeta}
use clusterbook_operator.Owned.{annotation_owned_annotations}
use clusterbook_operator.Cluster.Metadata.Ownership.{
  owns_annotation, is_record_key, lookup-own_metadata-annotations, owns_annotation-own_metadata,
}
use clusterbook_operator.Cluster.Metadata.History.{
  Event, reconciled, labelled, unlabelled, annotated, unannotated, apply, run, IsFair, AllFair,
  Entry, claim, replay, run-replay_view,
}

-- What an event does to the annotation at a key.
unfoldable pub move_annotation : String → Event → Entry → Entry
move_annotation j (reconciled labels annotations) x = claim (lookup j annotations) x
move_annotation j (labelled k v) x = x
move_annotation j (unlabelled k) x = x
move_annotation j (annotated k v) x = record x { value = if k == j then some v else x.value }
move_annotation j (unannotated k) x = record x { value = if k == j then none else x.value }

-- The annotation that a Secret's metadata shows at a key.
abbrev pub annotation_at : String → ObjectMeta → Entry
annotation_at j m = record { value = lookup j m.annotations; owned = owns_annotation m j }

record-ne : (k : String) → is_record_key k ≡ false → (k == annotation_owned_annotations) ≡ false
record-ne k h =
    ground (arith, eq_iff k annotation_owned_annotations, eq_iff annotation_owned_annotations k)

module _ (j : String) (plain : is_record_key j ≡ false) where
  annotation_at-apply :
      (e : Event) (m : ObjectMeta)
      → IsFair e
      → annotation_at j (apply e m) ≡ move_annotation j e (annotation_at j m)
  unfolding apply move_annotation
  annotation_at-apply (reconciled l a) m fair = λ i. record {
    value = lookup-own_metadata-annotations l a m j plain i;
    owned = owns_annotation-own_metadata l a m j fair.1 i;
  }
  annotation_at-apply (labelled k v) m fair = refl
  annotation_at-apply (unlabelled k) m fair = refl
  annotation_at-apply (annotated k v) m fair =
      rw
        (
          lookup-insert annotation_owned_annotations k v m.annotations,
          record-ne k fair,
          lookup-insert j k v m.annotations,
        )
        refl
  annotation_at-apply (unannotated k) m fair =
      rw
        (
          lookup-erase annotation_owned_annotations k m.annotations,
          record-ne k fair,
          lookup-erase j k m.annotations,
        )
        refl

  -- The same for an annotation, apart from the two that hold the records: through such a
  -- history the Secret's metadata shows at the annotation what its abstract ownership gives.
  pub run-replay_annotation :
      (es : List Event) (m : ObjectMeta)
      → AllFair es
      → annotation_at j (run es m) ≡ replay (move_annotation j) es (annotation_at j m)
  run-replay_annotation = run-replay_view (annotation_at j) (move_annotation j) annotation_at-apply
