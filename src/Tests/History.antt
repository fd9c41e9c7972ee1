-- ===== src/Tests/History.antt =====
-- One Secret's history.
use clusterbook_operator.Prelude.{List, [], ◌∷◌, ◌≡◌, refl}
use clusterbook_operator.Prelude.Map.{keys}
use clusterbook_operator.Owned.Record.{AllKeys, are_keys-AllKeys}
use clusterbook_operator.Cluster.Metadata.History.{
  Event, reconciled, labelled, annotated, run, replay, label_at, move, run-replay,
}
use clusterbook_operator.Cluster.Metadata.History.Annotations.{
  annotation_at, move_annotation, run-replay_annotation,
}
use clusterbook_operator.Tests.Fixture.{team_labels, owner_annotations, foreign_secret}

-- A reconcile, a change of a label by somebody else, and a reconcile that wants no labels.
abbrev history : List Event
history =
    reconciled team_labels owner_annotations
    ∷ labelled "tier" "silver"
    ∷ annotated "note" "seen"
    ∷ reconciled [] []
    ∷ []

team_keys : AllKeys (keys team_labels)
unfolding keys
team_keys = are_keys-AllKeys (keys team_labels) refl

owner_keys : AllKeys (keys owner_annotations)
unfolding keys
owner_keys = are_keys-AllKeys (keys owner_annotations) refl

run-replay_example :
    label_at "team" (run history foreign_secret.meta)
    ≡ replay (move "team") history (label_at "team" foreign_secret.meta)
unfolding keys
run-replay_example =
    run-replay "team" history foreign_secret.meta
      ((team_keys, owner_keys), (tt, (refl, ((tt, tt), tt))))

run-replay_annotation_example :
    annotation_at "note" (run history foreign_secret.meta)
    ≡ replay (move_annotation "note") history (annotation_at "note" foreign_secret.meta)
unfolding keys
run-replay_annotation_example =
    run-replay_annotation "note" refl history foreign_secret.meta
      ((team_keys, owner_keys), (tt, (refl, ((tt, tt), tt))))
