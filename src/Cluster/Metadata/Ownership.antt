-- ===== src/Cluster/Metadata/Ownership.antt =====
-- Successive reconciles of one Secret's metadata.
use clusterbook_operator.Prelude.{
  String, ◌≡◌, refl, Bool, true, false, none, some, arith, ◌==◌, ◌||◌, elem, is_some, value_or,
  Bool-cases, inl, inr, if◌then◌else◌,
}
use clusterbook_operator.Prelude.Map.{Map, lookup, insert, keys, or_else, lookup-insert}
use clusterbook_operator.Api.Meta.{ObjectMeta}
use clusterbook_operator.Owned.{
  annotation_owned_labels, annotation_owned_annotations, parse_owned_record, owned_record,
  record_owned,
}
use clusterbook_operator.Owned.Apply.{lookup-apply_owned}
use clusterbook_operator.Owned.Record.{AllKeys, elem-owned_record}
use clusterbook_operator.Cluster.Metadata.{own_metadata}

-- The keys that a Secret's records name.
abbrev pub owns_label : ObjectMeta → String → Bool
owns_label m j =
    elem j (parse_owned_record (value_or "" (lookup annotation_owned_labels m.annotations)))

abbrev pub owns_annotation : ObjectMeta → String → Bool
owns_annotation m j =
    elem j (parse_owned_record (value_or "" (lookup annotation_owned_annotations m.annotations)))

-- The two annotations that hold the records.
abbrev pub is_record_key : String → Bool
is_record_key j = annotation_owned_labels == j || annotation_owned_annotations == j

module _ (a labels annotations : Map String) where
  lookup-record_owned :
      (j : String)
      → lookup j (record_owned a labels annotations)
        ≡ (if is_record_key j then lookup j (record_owned a labels annotations) else lookup j a)
  unfolding record_owned
  lookup-record_owned j = ground (
    arith,
    lookup-insert j annotation_owned_annotations (owned_record annotations)
        (insert annotation_owned_labels (owned_record labels) a),
    lookup-insert j annotation_owned_labels (owned_record labels) a,
  )

  lookup-record_owned-labels :
      lookup annotation_owned_labels (record_owned a labels annotations)
      ≡ some (owned_record labels)
  unfolding record_owned
  lookup-record_owned-labels = rw (lookup-insert, lookup-insert) refl

  lookup-record_owned-annotations :
      lookup annotation_owned_annotations (record_owned a labels annotations)
      ≡ some (owned_record annotations)
  unfolding record_owned
  lookup-record_owned-annotations = rw lookup-insert refl

module _ (labels annotations : Map String) (m : ObjectMeta) (j : String) where
  pub lookup-own_metadata-labels :
      lookup j (own_metadata labels annotations m).labels
      ≡ or_else (lookup j labels) (if owns_label m j then none else lookup j m.labels)
  unfolding own_metadata
  lookup-own_metadata-labels =
      lookup-apply_owned j m.labels (value_or "" (lookup annotation_owned_labels m.annotations))
        labels

  pub lookup-own_metadata-annotations :
      is_record_key j ≡ false
      → lookup j (own_metadata labels annotations m).annotations
        ≡ or_else
            (lookup j annotations)
            (if owns_annotation m j then none else lookup j m.annotations)
  unfolding own_metadata
  lookup-own_metadata-annotations h =
      rw (lookup-record_owned, h)
        (lookup-apply_owned j m.annotations
          (value_or "" (lookup annotation_owned_annotations m.annotations)) annotations)

  pub owns_label-own_metadata :
      AllKeys (keys labels)
      → owns_label (own_metadata labels annotations m) j ≡ is_some (lookup j labels)
  unfolding own_metadata
  owns_label-own_metadata h = rw lookup-record_owned-labels (elem-owned_record j labels h)

  pub owns_annotation-own_metadata :
      AllKeys (keys annotations)
      → owns_annotation (own_metadata labels annotations m) j ≡ is_some (lookup j annotations)
  unfolding own_metadata
  owns_annotation-own_metadata h =
      rw lookup-record_owned-annotations (elem-owned_record j annotations h)

-- Two reconciles in a row, the first with the desired labels and annotations `l1` and `a1`, the
-- second with `l2` and `a2`.
module _ (l1 a1 l2 a2 : Map String) (m : ObjectMeta) (j : String) where
  -- Two reconciles of one Secret's metadata, the first with the desired labels l1, whose keys
  -- are not empty and hold no comma, the second with l2: afterwards a label is the one that l2
  -- wants; if l2 wants none there, a label that l1 wanted is gone, as is one that the Secret's
  -- record named before, and any other is as it was.
  pub own_metadata_twice-labels :
      AllKeys (keys l1)
      → lookup j (own_metadata l2 a2 (own_metadata l1 a1 m)).labels
        ≡ or_else
            (lookup j l2)
            (if is_some (lookup j l1) || owns_label m j then none else lookup j m.labels)
  own_metadata_twice-labels h =
      rw
        (
          lookup-own_metadata-labels,
          owns_label-own_metadata l1 a1 m j h,
          lookup-own_metadata-labels,
        )
        (ground arith)

  -- The same for the annotations, apart from the two that hold the records: after reconciles
  -- with the desired annotations a1, whose keys are not empty and hold no comma, and then a2,
  -- an annotation is the one that a2 wants; if a2 wants none there, one that a1 wanted is gone,
  -- as is one that the Secret's record named before, and any other is as it was.
  pub own_metadata_twice-annotations :
      AllKeys (keys a1)
      → is_record_key j ≡ false
      → lookup j (own_metadata l2 a2 (own_metadata l1 a1 m)).annotations
        ≡ or_else
            (lookup j a2)
            (if is_some (lookup j a1) || owns_annotation m j then none else lookup j m.annotations)
  own_metadata_twice-annotations h r =
      rw
        (
          lookup-own_metadata-annotations l2 a2 (own_metadata l1 a1 m) j r,
          owns_annotation-own_metadata l1 a1 m j h,
          lookup-own_metadata-annotations l1 a1 m j r,
        )
        (ground arith)

lookup-record_owned-same :
    (x y l a : Map String) (j : String)
    → is_record_key j ≡ true
    → lookup j (record_owned x l a) ≡ lookup j (record_owned y l a)
unfolding record_owned
lookup-record_owned-same x y l a j h = ground (
  arith,
  lookup-insert j annotation_owned_annotations (owned_record a)
      (insert annotation_owned_labels (owned_record l) x),
  lookup-insert j annotation_owned_labels (owned_record l) x,
  lookup-insert j annotation_owned_annotations (owned_record a)
      (insert annotation_owned_labels (owned_record l) y),
  lookup-insert j annotation_owned_labels (owned_record l) y,
)

-- Two metadata with the same labels and annotations as maps.
abbrev pub SameMetadata : ObjectMeta → ObjectMeta → Type 0
SameMetadata m n =
    (j : String)
    → (lookup j m.labels ≡ lookup j n.labels) × (lookup j m.annotations ≡ lookup j n.annotations)

module _ (l a : Map String) (m : ObjectMeta) where
  own_metadata_idem-annotations :
      AllKeys (keys a)
      → (j : String)
      → lookup j (own_metadata l a (own_metadata l a m)).annotations
        ≡ lookup j (own_metadata l a m).annotations
  unfolding own_metadata
  own_metadata_idem-annotations h j = elim (Bool-cases (is_record_key j)) [
    | inl e ↦ lookup-record_owned-same _ _ l a j e
    | inr e ↦
        rw
          (
            own_metadata_twice-annotations l a l a m j h e,
            lookup-own_metadata-annotations l a m j e,
          )
          (ground arith)
  ]

  -- Reconciling a Secret's metadata once more with the same desired labels and annotations,
  -- whose keys are not empty and hold no comma, changes no label and no annotation, the two
  -- records included.
  pub own_metadata_idem :
      AllKeys (keys l)
      → AllKeys (keys a)
      → SameMetadata (own_metadata l a (own_metadata l a m)) (own_metadata l a m)
  own_metadata_idem hl ha j = (
    rw (own_metadata_twice-labels l a l a m j hl, lookup-own_metadata-labels) (ground arith),
    own_metadata_idem-annotations ha j,
  )
