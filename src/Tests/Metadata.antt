-- ===== src/Tests/Metadata.antt =====
-- The metadata of the cluster Secret, on concrete labels and annotations.
use clusterbook_operator.Prelude.{refl}
use clusterbook_operator.Prelude.Map.{keys}
use clusterbook_operator.Owned.Record.{AllKeys, are_keys-AllKeys}
use clusterbook_operator.Cluster.Metadata.{own_metadata}
use clusterbook_operator.Cluster.Metadata.Ownership.{SameMetadata, own_metadata_idem}
use clusterbook_operator.Tests.Fixture.{team_labels, owner_annotations, foreign_secret}

team-AllKeys : AllKeys (keys team_labels)
unfolding keys
team-AllKeys = are_keys-AllKeys (keys team_labels) refl

owner-AllKeys : AllKeys (keys owner_annotations)
unfolding keys
owner-AllKeys = are_keys-AllKeys (keys owner_annotations) refl

own_metadata_idem_example :
    SameMetadata
      (own_metadata team_labels owner_annotations
        (own_metadata team_labels owner_annotations foreign_secret.meta))
      (own_metadata team_labels owner_annotations foreign_secret.meta)
own_metadata_idem_example =
    own_metadata_idem team_labels owner_annotations foreign_secret.meta team-AllKeys owner-AllKeys
