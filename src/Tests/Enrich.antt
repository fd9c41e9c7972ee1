-- ===== src/Tests/Enrich.antt =====
-- Enrich mode on a concrete Secret, in the concrete world.
use clusterbook_operator.Prelude.{true, some, ◌≡◌, refl}
use clusterbook_operator.Prelude.Map.{lookup, insert, keys, merge, merge_missing}
use clusterbook_operator.Exec.{ok}
use clusterbook_operator.Api.Meta.{Secret, secret_name}
use clusterbook_operator.Owned.Record.{AllKeys, are_keys-AllKeys}
use clusterbook_operator.World.Data.{secret}
use clusterbook_operator.Cluster.Metadata.{
  enriched_annotations, enrich_secret, own_metadata, info_annotations, allocated_annotations,
}
use clusterbook_operator.Shared.{insert_nonempty}
use clusterbook_operator.Cluster.Secrets.{
  enrich_existing_secret, strip_enriched_metadata, enrich_found, strip_found,
}
use clusterbook_operator.Cluster.Secrets.Foreign.{Stripped, strip-enrich_run}
use clusterbook_operator.Tests.Fixture.{prod, prod_allocated, prod_info, foreign_secret, secret_ref}
use clusterbook_operator.Tests.Server.{fetch, world, store, Store, serves_secrets}

enriched-AllKeys : AllKeys (keys (enriched_annotations prod prod_allocated (some prod_info)))
unfolding keys enriched_annotations merge_missing lookup info_annotations insert_nonempty insert
    allocated_annotations
enriched-AllKeys =
    are_keys-AllKeys (keys (enriched_annotations prod prod_allocated (some prod_info))) refl

-- The store after the Secret was enriched, and after it was stripped.
abbrev enriched_store : Store
enriched_store =
    (enrich_existing_secret (world true) secret_ref prod prod_allocated (some prod_info) store).1

abbrev stripped_store : Store
stripped_store = (strip_enriched_metadata (world true) secret_ref enriched_store).1

strip-enrich_run_example :
    (o : Secret) × (fetch secret (secret_name secret_ref) stripped_store ≡ ok o)
    × Stripped prod foreign_secret o
unfolding merge enrich_existing_secret strip_enriched_metadata enrich_found strip_found
    enrich_secret own_metadata
strip-enrich_run_example =
    strip-enrich_run (world true) (serves_secrets true) secret_ref prod prod_allocated
      (some prod_info) foreign_secret store enriched_store stripped_store enriched-AllKeys refl refl
      refl
