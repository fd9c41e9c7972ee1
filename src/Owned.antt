-- ===== src/Owned.antt =====
-- controller/owned_metadata.go: the keys that the operator wrote to a Secret's labels and
-- annotations are recorded on the Secret, so that the next reconcile removes what is dropped.
pub mod Apply
pub mod Record
use clusterbook_operator.Prelude.{String, ◌<>◌, List, [], ◌∷◌, ◌==◌, is_some, if◌then◌else◌}
use clusterbook_operator.Prelude.Text.{split, join, sort}
use clusterbook_operator.Prelude.Map.{Map, lookup, insert, erase, keys, merge}

abbrev pub clusterbook_prefix : String
clusterbook_prefix = "clusterbook.stuttgart-things.com/"

abbrev pub annotation_owned_labels : String
annotation_owned_labels = clusterbook_prefix <> "owned-labels"

abbrev pub annotation_owned_annotations : String
annotation_owned_annotations = clusterbook_prefix <> "owned-annotations"

-- `parseOwnedRecord`
unfoldable pub parse_owned_record : String → List String
parse_owned_record s = if s == "" then [] else split s

-- `ownedRecord`
unfoldable pub owned_record : Map String → String
owned_record m = join (sort (keys m))

-- The first loop of `applyOwned`.
unfoldable pub drop_stale : List String → Map String → Map String → Map String
drop_stale [] desired current = current
drop_stale (k ∷ ks) desired current =
    drop_stale ks desired (if is_some (lookup k desired) then current else erase k current)

-- `applyOwned`
unfoldable pub apply_owned : Map String → String → Map String → Map String
apply_owned current prev_record desired =
    merge (drop_stale (parse_owned_record prev_record) desired current) desired

-- `recordOwned`
unfoldable pub record_owned : Map String → Map String → Map String → Map String
record_owned annotations labels desired_annotations =
    insert annotation_owned_annotations (owned_record desired_annotations)
      (insert annotation_owned_labels (owned_record labels) annotations)
