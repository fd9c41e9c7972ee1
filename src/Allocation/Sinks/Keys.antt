-- ===== src/Allocation/Sinks/Keys.antt =====
-- Which keys of a shared Secret an allocation's sink writes and removes.
use clusterbook_operator.Prelude.{
  String, ◌<>◌, ◌≡◌, Bool, false, ◌||◌, Option, none, some, arith, ◌==◌,
}
use clusterbook_operator.Prelude.Map.{lookup, insert, lookup-insert}
use clusterbook_operator.Api.Meta.{Secret}
use clusterbook_operator.Api.Allocation.{Allocation}
use clusterbook_operator.World.Data.{ClusterInfo}
use clusterbook_operator.Cluster.Metadata.Lookups.{lookup-insert_nonempty}
use clusterbook_operator.Allocation.Sinks.{key_prefix, zone_labels, enrich_secret}

-- The keys of the labels of an allocation.
abbrev pub is_label_of : Allocation → String → Bool
is_label_of cr j =
    key_prefix cr == j || (key_prefix cr <> "-ip") == j || (key_prefix cr <> "-zone") == j

module _ (cr : Allocation) (ip : String) (info : Option ClusterInfo) (s : Secret) where
  -- An allocation that enriches the shared Secret leaves every label as it is that is not one
  -- of its own three: the presence, the IP and the zone under its name.
  pub enrich_secret-other_label :
      (j : String)
      → is_label_of cr j ≡ false
      → lookup j (enrich_secret cr ip info s).meta.labels ≡ lookup j s.meta.labels
  unfolding enrich_secret zone_labels
  enrich_secret-other_label j h = other_label info h
    where
      other_label :
          (i : Option ClusterInfo)
          → is_label_of cr j ≡ false
          → lookup j (
              zone_labels
                (key_prefix cr)
                i
                (insert (key_prefix cr <> "-ip") ip (insert (key_prefix cr) "true" s.meta.labels)))
            ≡ lookup j s.meta.labels
      other_label none h = ground (
        arith,
        lookup-insert j (key_prefix cr <> "-ip") ip (insert (key_prefix cr) "true" s.meta.labels),
        lookup-insert j (key_prefix cr) "true" s.meta.labels,
      )
      other_label (some i) h = ground (
        arith,
        lookup-insert_nonempty j (key_prefix cr <> "-zone") i.zone
            (insert (key_prefix cr <> "-ip") ip (insert (key_prefix cr) "true" s.meta.labels)),
        lookup-insert j (key_prefix cr <> "-ip") ip (insert (key_prefix cr) "true" s.meta.labels),
        lookup-insert j (key_prefix cr) "true" s.meta.labels,
      )
