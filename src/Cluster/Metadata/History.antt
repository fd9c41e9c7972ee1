-- ===== src/Cluster/Metadata/History.antt =====
-- The labels of one Secret through a history of reconciles and of writes by others, against what
-- ownership promises for each label (controller/owned.go, controller/reconciler.go).
pub mod Annotations
use clusterbook_operator.Prelude.{
  String, ◌≡◌, refl, sym, ap, ◌∙◌, Bool, false, Option, none, some, List, [], ◌∷◌, arith, ◌==◌,
  eq_iff, is_some, if◌then◌else◌,
}
use clusterbook_operator.Prelude.Map.{
  Map, lookup, insert, erase, keys, or_else, lookup-insert, lookup-erase,
}
use clusterbook_operator.Api.Meta.{ObjectMeta}
use clusterbook_operator.Owned.{annotation_owned_labels}
use clusterbook_operator.Owned.Record.{AllKeys}
use clusterbook_operator.Cluster.Metadata.{own_metadata}
use clusterbook_operator.Cluster.Metadata.Ownership.{
  owns_label, is_record_key, lookup-own_metadata-labels, owns_label-own_metadata,
}

-- A reconcile with the labels and annotations that it wants, and what others do to the Secret.
pub data Event : Type 0 where
  reconciled : Map String → Map String → Event
  labelled : String → String → Event
  unlabelled : String → Event
  annotated : String → String → Event
  unannotated : String → Event

unfoldable pub apply : Event → ObjectMeta → ObjectMeta
apply (reconciled labels annotations) m = own_metadata labels annotations m
apply (labelled k v) m = record m { labels = insert k v m.labels }
apply (unlabelled k) m = record m { labels = erase k m.labels }
apply (annotated k v) m = record m { annotations = insert k v m.annotations }
apply (unannotated k) m = record m { annotations = erase k m.annotations }

unfoldable pub run : List Event → ObjectMeta → ObjectMeta
run [] m = m
run (e ∷ es) m = run es (apply e m)

-- The keys are ones that the records can hold, and nobody else writes the records.
abbrev pub IsFair : Event → Type 0
IsFair (reconciled labels annotations) = AllKeys (keys labels) × AllKeys (keys annotations)
IsFair (labelled k v) = Unit
IsFair (unlabelled k) = Unit
IsFair (annotated k v) = is_record_key k ≡ false
IsFair (unannotated k) = is_record_key k ≡ false

abbrev pub AllFair : List Event → Type 0
AllFair [] = Unit
AllFair (e ∷ es) = IsFair e × AllFair es

-- One label, or one annotation: its value, and whether it is the operator's.
pub record Entry : Type 0 where
  pub value : Option String
  pub owned : Bool

-- A reconcile with the value that it wants.
abbrev pub claim : Option String → Entry → Entry
claim wanted x = record {
  value = or_else wanted (if x.owned then none else x.value);
  owned = is_some wanted;
}

-- What an event does to the label at a key.
unfoldable pub move : String → Event → Entry → Entry
move j (reconciled labels annotations) x = claim (lookup j labels) x
move j (labelled k v) x = record x { value = if k == j then some v else x.value }
move j (unlabelled k) x = record x { value = if k == j then none else x.value }
move j (annotated k v) x = x
move j (unannotated k) x = x

unfoldable pub replay : (Event → Entry → Entry) → List Event → Entry → Entry
replay step [] x = x
replay step (e ∷ es) x = replay step es (step e x)

-- What a view of the metadata shows after a history, if one event at a time is accounted for.
pub run-replay_view :
    (view : ObjectMeta → Entry) (step : Event → Entry → Entry)
    → ((e : Event) (m : ObjectMeta) → IsFair e → view (apply e m) ≡ step e (view m))
    → (es : List Event) (m : ObjectMeta) → AllFair es
    → view (run es m) ≡ replay step es (view m)
unfolding run replay
run-replay_view view step one [] m fair = refl
run-replay_view view step one (e ∷ es) m (fair, rest) =
    run-replay_view view step one es (apply e m) rest ∙ ap (replay step es) (one e m fair)

-- The label that a Secret's metadata shows at a key.
abbrev pub label_at : String → ObjectMeta → Entry
label_at j m = record { value = lookup j m.labels; owned = owns_label m j }

labels_record-ne : (k : String) → is_record_key k ≡ false → (k == annotation_owned_labels) ≡ false
labels_record-ne k h =
    ground (arith, eq_iff k annotation_owned_labels, eq_iff annotation_owned_labels k)

module _ (j : String) where
  label_at-apply :
      (e : Event) (m : ObjectMeta) → IsFair e → label_at j (apply e m) ≡ move j e (label_at j m)
  unfolding apply move
  label_at-apply (reconciled l a) m fair = λ i. record {
    value = lookup-own_metadata-labels l a m j i;
    owned = owns_label-own_metadata l a m j fair.0 i;
  }
  label_at-apply (labelled k v) m fair =
      λ i. record { value = lookup-insert j k v m.labels i; owned = owns_label m j }
  label_at-apply (unlabelled k) m fair =
      λ i. record { value = lookup-erase j k m.labels i; owned = owns_label m j }
  label_at-apply (annotated k v) m fair =
      rw (lookup-insert annotation_owned_labels k v m.annotations, labels_record-ne k fair) refl
  label_at-apply (unannotated k) m fair =
      rw (lookup-erase annotation_owned_labels k m.annotations, labels_record-ne k fair) refl

  -- Through any history of reconciles, whose label and annotation keys are not empty and hold
  -- no comma, and of labels and annotations that others write or remove, with nobody else
  -- touching the two records: what the Secret's metadata shows at a label, its value and
  -- whether the record names it, is what the abstract ownership of that one label gives, where
  -- a reconcile that wants the label sets and owns it, one that does not removes it exactly if
  -- it was owned and disowns it, and a write or removal by others only changes the value.
  pub run-replay :
      (es : List Event) (m : ObjectMeta)
      → AllFair es
      → label_at j (run es m) ≡ replay (move j) es (label_at j m)
  run-replay = run-replay_view (label_at j) (move j) label_at-apply

-- The history without the reconciles.
unfoldable pub by_others : List Event → List Event
by_others [] = []
by_others (reconciled l a ∷ es) = by_others es
by_others (labelled k v ∷ es) = labelled k v ∷ by_others es
by_others (unlabelled k ∷ es) = unlabelled k ∷ by_others es
by_others (annotated k v ∷ es) = annotated k v ∷ by_others es
by_others (unannotated k ∷ es) = unannotated k ∷ by_others es

-- No reconcile of the history wants the label.
abbrev pub NeverWanted : String → List Event → Type 0
NeverWanted j [] = Unit
NeverWanted j (reconciled l a ∷ es) = (lookup j l ≡ none) × NeverWanted j es
NeverWanted j (labelled k v ∷ es) = NeverWanted j es
NeverWanted j (unlabelled k ∷ es) = NeverWanted j es
NeverWanted j (annotated k v ∷ es) = NeverWanted j es
NeverWanted j (unannotated k ∷ es) = NeverWanted j es

module _ (j : String) where
  AllFair-by_others : (es : List Event) → AllFair es → AllFair (by_others es)
  unfolding by_others
  AllFair-by_others [] fair = fair
  AllFair-by_others (reconciled l a ∷ es) (f, fair) = AllFair-by_others es fair
  AllFair-by_others (labelled k v ∷ es) (f, fair) = (f, AllFair-by_others es fair)
  AllFair-by_others (unlabelled k ∷ es) (f, fair) = (f, AllFair-by_others es fair)
  AllFair-by_others (annotated k v ∷ es) (f, fair) = (f, AllFair-by_others es fair)
  AllFair-by_others (unannotated k ∷ es) (f, fair) = (f, AllFair-by_others es fair)

  move-unwanted :
      (l a : Map String) (x : Entry)
      → lookup j l ≡ none
      → x.owned ≡ false
      → move j (reconciled l a) x ≡ x
  unfolding move
  move-unwanted l a x n o =
      let kept : or_else (lookup j l) (if x.owned then none else x.value) ≡ x.value =
        rw (n, o) refl in
      λ i. record { value = kept i; owned = (ap is_some n ∙ sym o) i }

  replay-by_others :
      (es : List Event) (x : Entry)
      → NeverWanted j es
      → x.owned ≡ false
      → replay (move j) es x ≡ replay (move j) (by_others es) x
  unfolding replay by_others move
  replay-by_others [] x never o = refl
  replay-by_others (reconciled l a ∷ es) x (n, never) o =
      ap (replay (move j) es) (move-unwanted l a x n o) ∙ replay-by_others es x never o
  replay-by_others (labelled k v ∷ es) x never o =
      replay-by_others es (move j (labelled k v) x) never o
  replay-by_others (unlabelled k ∷ es) x never o =
      replay-by_others es (move j (unlabelled k) x) never o
  replay-by_others (annotated k v ∷ es) x never o = replay-by_others es x never o
  replay-by_others (unannotated k ∷ es) x never o = replay-by_others es x never o

  -- Through such a history, a label that no reconcile wants and that the record did not name at
  -- the start holds what it would hold had there been no reconcile at all.
  pub run-foreign :
      (es : List Event) (m : ObjectMeta)
      → AllFair es
      → NeverWanted j es
      → owns_label m j ≡ false
      → lookup j (run es m).labels ≡ lookup j (run (by_others es) m).labels
  run-foreign es m fair never o =
      ap (λ (x : Entry). x.value)
        (run-replay j es m fair
          ∙ replay-by_others es (label_at j m) never o
          ∙ sym (run-replay j (by_others es) m (AllFair-by_others es fair)))
