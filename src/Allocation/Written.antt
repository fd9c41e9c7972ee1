-- ===== src/Allocation/Written.antt =====
-- What a reconcile writes to the sinks (controller/allocation_reconciler.go).
use clusterbook_operator.Prelude.{
  String, ◌≡◌, refl, ap, subst, true, Option, some, none, Bool-cases, inl, inr,
}
use clusterbook_operator.Exec.{Error, Result, ok, err, is_not_found, pure, fail}
use clusterbook_operator.Exec.Inversion.{>>=-eq-ok, context-eq-ok}
use clusterbook_operator.Api.Allocation.{Allocation, ConfigMapSink, sink_name}
use clusterbook_operator.Api.Meta.{ConfigMap, Secret, SecretObjectRef, secret_name}
use clusterbook_operator.World.{World}
use clusterbook_operator.World.Data.{secret, config_map, ClusterInfo}
use clusterbook_operator.Allocation.Sinks.{
  render_config_map, upsert_config_map_sink, enrich_secret, enrich_found, enrich_cluster_secret,
}
use clusterbook_operator.Allocation.Reconcile.{publish_config_map, publish_secret}

module _ (W : World) where
  -- The ConfigMap of the sink is written, where there is a sink.
  pub data MapWritten (cr : Allocation) (ip : String) (info : Option ClusterInfo)
      : Option ConfigMapSink → W.State → W.State → Type 0 where
    no_map : (s : W.State) → MapWritten cr ip info none s s
    map_sunk :
        (sink : ConfigMapSink) (m : ConfigMap) (s t : W.State)
        → W.create_or_update config_map (sink_name sink) (render_config_map W cr ip info) s
          ≡ (ok m, t)
        → MapWritten cr ip info (some sink) s t

  -- The Secret of the sink is enriched, where there is a sink and the Secret is there.
  pub data SecretWritten (cr : Allocation) (ip : String) (info : Option ClusterInfo)
      : Option SecretObjectRef → W.State → W.State → Type 0 where
    no_secret : (s : W.State) → SecretWritten cr ip info none s s
    secret_absent :
        (ref : SecretObjectRef) (e : Error) (s : W.State)
        → W.get secret (secret_name ref) s ≡ err e
        → is_not_found e ≡ true
        → SecretWritten cr ip info (some ref) s s
    secret_sunk :
        (ref : SecretObjectRef) (o o' : Secret) (s t : W.State)
        → W.get secret (secret_name ref) s ≡ ok o
        → W.update secret (enrich_secret cr ip info o) s ≡ (ok o', t)
        → SecretWritten cr ip info (some ref) s t

  pub publish_config_map-written :
      (cr : Allocation) (ip : String) (info : Option ClusterInfo) (sink : Option ConfigMapSink)
      (s t : W.State)
      → publish_config_map W cr ip info sink s ≡ (ok tt, t)
      → MapWritten cr ip info sink s t
  unfolding publish_config_map upsert_config_map_sink
  publish_config_map-written cr ip info none s t h =
      subst (λ v. MapWritten cr ip info none s v) (ap (λ (x : Result (Unit {0}) × W.State). x.1) h)
        (no_map s)
  publish_config_map-written cr ip info (some sink) s t h =
      let write = W.create_or_update config_map (sink_name sink) (render_config_map W cr ip info) in
      let (m, u, wrote, rest) =
        >>=-eq-ok write (λ (_ : ConfigMap). pure tt) s
          (context-eq-ok "upsert configmap sink" (upsert_config_map_sink W cr ip info sink) s h) in
      subst (λ v. MapWritten cr ip info (some sink) s v)
        (ap (λ (x : Result (Unit {0}) × W.State). x.1) rest) (map_sunk sink m s u wrote)

  enrich_found-written :
      (ref : SecretObjectRef) (cr c : Allocation) (ip : String) (info : Option ClusterInfo)
      (found : Result Secret) (s t : W.State)
      → W.get secret (secret_name ref) s ≡ found
      → enrich_found W ref cr ip info found s ≡ (ok c, t)
      → SecretWritten cr ip info (some ref) s t
  unfolding enrich_found
  enrich_found-written ref cr c ip info (ok o) s t got h =
      let (o', u, wrote, rest) =
        >>=-eq-ok (W.update secret (enrich_secret cr ip info o)) (λ (_ : Secret). pure cr) s h in
      subst (λ v. SecretWritten cr ip info (some ref) s v)
        (ap (λ (x : Result Allocation × W.State). x.1) rest) (secret_sunk ref o o' s u got wrote)
  enrich_found-written ref cr c ip info (err e) s t got h = elim (Bool-cases (is_not_found e)) [
    | inl y ↦
        subst (λ v. SecretWritten cr ip info (some ref) s v)
          (ap (λ (x : Result Allocation × W.State). x.1) (rw y at h)) (secret_absent ref e s got y)
    | inr n ↦ let refused : fail e s ≡ (ok c, t) = rw n at h in cc
  ]

  pub publish_secret-written :
      (cr c : Allocation) (ip : String) (info : Option ClusterInfo) (sink : Option SecretObjectRef)
      (s t : W.State)
      → publish_secret W cr ip info sink s ≡ (ok c, t)
      → SecretWritten cr ip info sink s t
  unfolding publish_secret enrich_cluster_secret
  publish_secret-written cr c ip info none s t h =
      subst (λ v. SecretWritten cr ip info none s v)
        (ap (λ (x : Result Allocation × W.State). x.1) h) (no_secret s)
  publish_secret-written cr c ip info (some ref) s t h =
      enrich_found-written ref cr c ip info (W.get secret (secret_name ref) s) s t refl
        (context-eq-ok "enrich cluster secret" (enrich_cluster_secret W cr ip info ref) s h)
