-- ===== src/Allocation/Sinks.antt =====
-- The two sinks of an allocation: a ConfigMap that the CR owns, and labels and annotations on a
-- foreign cluster Secret (controller/allocation_reconciler.go).
pub mod Keys
pub mod Contents
pub mod Coexist
use clusterbook_operator.Prelude.{String, ◌<>◌, Bool, Option, none, some, [], ◌==◌, if◌then◌else◌}
use clusterbook_operator.Prelude.Map.{Map, insert, erase, erase_where}
use clusterbook_operator.Exec.{
  Result, ok, err, is_not_found, Exec, pure, fail, reads, attempt, and_then, ◌>>=◌, ◌>>◌,
}
use clusterbook_operator.Api.Meta.{
  ObjectMeta, Secret, ConfigMap, SecretObjectRef, secret_name, Condition, condition_false,
}
use clusterbook_operator.Api.Allocation.{Allocation, ConfigMapSink, sink_name}
use clusterbook_operator.World.{World}
use clusterbook_operator.World.Data.{secret, config_map, allocation, ClusterInfo}
use clusterbook_operator.Owned.{clusterbook_prefix}
use clusterbook_operator.Shared.{insert_nonempty}
use clusterbook_operator.Cluster.Metadata.{has_prefix}

-- `if v != "" { m[k] = v } else { delete(m, k) }`
unfoldable pub insert_or_erase : String → String → Map String → Map String
insert_or_erase k v m = if v == "" then erase k m else insert k v m

-- `if info != nil { … }` of the ConfigMap.
unfoldable pub info_contents : Option ClusterInfo → Map String → Map String
info_contents none m = m
info_contents (some info) m = insert_or_erase "zone" info.zone (insert_or_erase "fqdn" info.fqdn m)

-- The data of the ConfigMap.
unfoldable pub sink_contents : Allocation → String → Option ClusterInfo → Map String → Map String
sink_contents cr ip info m =
    info_contents info
      (insert "name" cr.spec.name (insert "networkKey" cr.spec.network_key (insert "ip" ip m)))

-- The first part of every key that an allocation writes on a Secret.
unfoldable pub key_prefix : Allocation → String
key_prefix cr = clusterbook_prefix <> ("allocation-" <> cr.spec.name)

-- The zone label, `if info != nil { … }`.
unfoldable pub zone_labels : String → Option ClusterInfo → Map String → Map String
zone_labels prefix none m = m
zone_labels prefix (some info) m = insert_nonempty (prefix <> "-zone") info.zone m

unfoldable pub name_annotations : String → Option ClusterInfo → Map String → Map String
name_annotations prefix none m = m
name_annotations prefix (some info) m =
    insert_nonempty (prefix <> "-zone") info.zone (insert_nonempty (prefix <> "-fqdn") info.fqdn m)

-- What `enrichClusterSecret` makes of the Secret that it read.
unfoldable pub enrich_secret : Allocation → String → Option ClusterInfo → Secret → Secret
enrich_secret cr ip info s =
    let prefix = key_prefix cr in
    let m = s.meta in
    record s {
      meta = record m {
        labels =
            zone_labels prefix info (insert (prefix <> "-ip") ip (insert prefix "true" m.labels));
        annotations = name_annotations prefix info (insert (prefix <> "-ip") ip m.annotations);
      };
    }

-- What `stripClusterSecret` makes of the Secret that it read.
unfoldable pub strip_secret : Secret → Secret
strip_secret s =
    let m = s.meta in
    record s {
      meta = record m {
        labels = erase_where has_prefix m.labels;
        annotations = erase_where has_prefix m.annotations;
      };
    }

module _ (W : World) where
  -- The callback of `CreateOrUpdate`.
  unfoldable pub render_config_map :
      Allocation → String → Option ClusterInfo → ConfigMap → Result ConfigMap
  render_config_map cr ip info cm =
      and_then (W.machinery.set_controller_reference allocation cr cm.meta)
        λ m. ok (record { meta = m; contents = sink_contents cr ip info cm.contents })

  -- `upsertConfigMapSink`
  unfoldable pub upsert_config_map_sink :
      Allocation → String → Option ClusterInfo → ConfigMapSink → Exec W.State (Unit {0})
  upsert_config_map_sink cr ip info s = do
    W.create_or_update config_map (sink_name s) (render_config_map cr ip info)
    pure tt

  -- A missing Secret is reported by a condition of the CR.
  unfoldable pub secret_missing : SecretObjectRef → Allocation → Allocation
  secret_missing ref cr = record cr {
    status = record cr.status {
      conditions = W.machinery.set_status_condition cr.status.conditions (record {
        kind = "ClusterSecretFound";
        status = condition_false;
        reason = "ClusterSecretNotFound";
        message = "secret " <> (ref.namespace <> ("/" <> (ref.name <> " not found")));
      });
    };
  }

  unfoldable pub enrich_found :
      SecretObjectRef
      → Allocation
      → String
      → Option ClusterInfo
      → Result Secret
      → Exec W.State Allocation
  enrich_found ref cr ip info (ok s) = do W.update secret (enrich_secret cr ip info s); pure cr
  enrich_found ref cr ip info (err e) =
      if is_not_found e then pure (secret_missing ref cr) else fail e

  -- `enrichClusterSecret`; it hands back the CR with its conditions.
  unfoldable pub enrich_cluster_secret :
      Allocation → String → Option ClusterInfo → SecretObjectRef → Exec W.State Allocation
  enrich_cluster_secret cr ip info ref = do
    found ← attempt (reads (W.get secret (secret_name ref)))
    enrich_found ref cr ip info found

  unfoldable pub strip_found : Result Secret → Exec W.State (Unit {0})
  strip_found (ok s) = do W.update secret (strip_secret s); pure tt
  strip_found (err e) = if is_not_found e then pure tt else fail e

  -- `stripClusterSecret`
  unfoldable pub strip_cluster_secret : SecretObjectRef → Exec W.State (Unit {0})
  strip_cluster_secret ref = do
    found ← attempt (reads (W.get secret (secret_name ref)))
    strip_found found
