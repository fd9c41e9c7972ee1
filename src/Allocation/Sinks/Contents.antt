-- ===== src/Allocation/Sinks/Contents.antt =====
-- What the ConfigMap sink of an allocation holds.
use clusterbook_operator.Prelude.{
  String, ◌≡◌, refl, Bool, false, ◌||◌, Option, none, some, arith, ◌==◌, eq_iff, if◌then◌else◌,
}
use clusterbook_operator.Prelude.Map.{Map, lookup, lookup-insert, lookup-erase}
use clusterbook_operator.Api.Allocation.{Allocation}
use clusterbook_operator.World.Data.{ClusterInfo}
use clusterbook_operator.Allocation.Sinks.{insert_or_erase, info_contents, sink_contents}

lookup-insert_or_erase :
    (j k v : String) (m : Map String)
    → lookup j (insert_or_erase k v m)
      ≡ (if k == j then (if v == "" then none else some v) else lookup j m)
unfolding insert_or_erase
lookup-insert_or_erase j k v m =
    ground (arith, lookup-insert j k v m, lookup-erase j k m, eq_iff k j, eq_iff j k)

-- The keys that the operator writes to a ConfigMap.
abbrev pub is_sink_key : String → Bool
is_sink_key j = "zone" == j || "fqdn" == j || "name" == j || "networkKey" == j || "ip" == j

module _ (cr : Allocation) (ip : String) (m : Map String) where
  -- Where clusterbook knows the allocation, the ConfigMap holds its IP, network and name, and
  -- its FQDN and zone exactly if they are not empty, whatever it held before.
  pub sink_contents-known :
      (info : ClusterInfo)
      → (lookup "ip" (sink_contents cr ip (some info) m) ≡ some ip)
        × (lookup "networkKey" (sink_contents cr ip (some info) m) ≡ some cr.spec.network_key)
        × (lookup "name" (sink_contents cr ip (some info) m) ≡ some cr.spec.name)
        × (lookup "fqdn" (sink_contents cr ip (some info) m)
            ≡ (if info.fqdn == "" then none else some info.fqdn))
        × (lookup "zone" (sink_contents cr ip (some info) m)
            ≡ (if info.zone == "" then none else some info.zone))
  unfolding sink_contents info_contents
  sink_contents-known info = (
    simp (lookup-insert_or_erase, lookup-insert) (ground arith),
    simp (lookup-insert_or_erase, lookup-insert) (ground arith),
    simp (lookup-insert_or_erase, lookup-insert) (ground arith),
    rw (lookup-insert_or_erase, lookup-insert_or_erase) refl,
    rw lookup-insert_or_erase refl,
  )

  -- At a key that is not ip, networkKey, name, fqdn or zone the ConfigMap holds what it held
  -- before.
  pub sink_contents-other :
      (info : Option ClusterInfo) (j : String)
      → is_sink_key j ≡ false
      → lookup j (sink_contents cr ip info m) ≡ lookup j m
  unfolding sink_contents info_contents
  sink_contents-other none j h = simp lookup-insert (ground arith)
  sink_contents-other (some info) j h = simp (lookup-insert_or_erase, lookup-insert) (ground arith)
