-- ===== src/Allocation/Release.antt =====
-- When an allocation's IP is released (controller/allocation_reconciler.go).
use clusterbook_operator.Prelude.{
  String, ◌≡◌, ◌≢◌, sym, ap, ◌∙◌, true, Option, some, none, if◌then◌else◌,
}
use clusterbook_operator.Prelude.Map.{lookup, lookup-erase_where}
use clusterbook_operator.Exec.{Result, ok, pure, ◌>>◌}
use clusterbook_operator.Exec.Inversion.{>>=-eq-ok, context-eq-ok}
use clusterbook_operator.Shared.Teardown.{teardown-eq-ok, release-eq-ok}
use clusterbook_operator.Api.Meta.{Secret, SecretObjectRef, secret_name}
use clusterbook_operator.Api.Allocation.{Allocation}
use clusterbook_operator.World.{World}
use clusterbook_operator.World.Data.{secret, allocation}
use clusterbook_operator.World.Laws.{ServesSecrets}
use clusterbook_operator.Client.{Client, release_ips}
use clusterbook_operator.Cluster.Metadata.{has_prefix}
use clusterbook_operator.Allocation.Sinks.{strip_secret, strip_found, strip_cluster_secret}
use clusterbook_operator.Allocation.Reconcile.{
  allocation_finalizer, withdraw_config_map, withdraw_secret, release, clean_up, finalize,
}

-- The CR with the operator's finalizer removed.
abbrev pub without_finalizer : World → Allocation → Allocation
without_finalizer W cr = record cr {
  meta = record cr.meta {
    finalizers = W.machinery.remove_finalizer cr.meta.finalizers allocation_finalizer;
  };
}

-- `o'` is `o` without the labels and annotations under clusterbook's prefix.
abbrev pub Stripped : Secret → Secret → Type 0
Stripped o o' =
    (o'.contents ≡ o.contents)
    × ((j : String)
        → (lookup j o'.meta.labels ≡ (if has_prefix j then none else lookup j o.meta.labels))
          × (lookup j o'.meta.annotations
              ≡ (if has_prefix j then none else lookup j o.meta.annotations)))

module _ (W : World) where
  release-sent :
      (cr : Allocation) (api : Client) (s t : W.State)
      → cr.spec.release_on_delete ≡ true
      → cr.status.ip ≢ ""
      → release W cr api s ≡ (ok tt, t)
      → release_ips W api cr.spec.network_key (record { ip = cr.status.ip }) s ≡ (ok tt, t)
  unfolding release
  release-sent cr api s t wanted held h =
      release-eq-ok cr.spec.release_on_delete cr.status.ip
        (release_ips W api cr.spec.network_key (record { ip = cr.status.ip })) s t wanted held h

  -- The state after the ConfigMap's deletion, whose errors are dropped.
  abbrev pub without_config_map : Allocation → W.State → W.State
  without_config_map cr s = (withdraw_config_map W cr.spec.sinks.config_map s).1

module _ (W : World) (laws : ServesSecrets W) where
  strip_cluster_secret-Stripped :
      (ref : SecretObjectRef) (o : Secret) (s t : W.State)
      → W.get secret (secret_name ref) s ≡ ok o
      → strip_cluster_secret W ref s ≡ (ok tt, t)
      → (o' : Secret) × (W.get secret (secret_name ref) t ≡ ok o') × Stripped o o'
  unfolding strip_cluster_secret strip_found strip_secret
  strip_cluster_secret-Stripped ref o s t found h =
      let (o', u, written, done) =
        >>=-eq-ok (W.update secret (strip_secret o)) (λ (_ : Secret). pure tt) s (rw found at h) in
      let same : u ≡ t = ap (λ (p : Result (Unit {0}) × W.State). p.1) done in
      let stored : W.update secret (strip_secret o) s ≡ (ok o', t) = rw same at written in
      let (labels, annotations, kept) =
        laws.update_keeps (strip_secret o) o' s t (laws.get_string_data (secret_name ref) o s found)
          stored in
      (
        o',
        rw (laws.get_name (secret_name ref) o s found) at (laws.get-update _ o' s t stored),
        (
          kept,
          λ j. (
            ap (lookup j) labels ∙ lookup-erase_where j has_prefix o.meta.labels,
            ap (lookup j) annotations ∙ lookup-erase_where j has_prefix o.meta.annotations,
          ),
        ),
      )

  -- In a world whose API server serves Secrets as it was given them: if finalize succeeds for
  -- an allocation that has its finalizer, names a cluster Secret which is there after the
  -- ConfigMap's deletion, holds an IP and is to release it, then before the IP was released the
  -- Secret had its data, no label and no annotation under clusterbook's prefix, and all its
  -- others, the release succeeded in that state, and after that the CR was written without its
  -- finalizer, with which finalize ends.
  pub finalize-Stripped :
      (cr : Allocation) (ref : SecretObjectRef) (api : Client) (o : Secret) (s u : W.State)
      → W.machinery.contains_finalizer cr.meta.finalizers allocation_finalizer ≡ true
      → cr.spec.sinks.cluster_secret_labels ≡ some ref
      → cr.spec.release_on_delete ≡ true
      → cr.status.ip ≢ ""
      → W.get secret (secret_name ref) (without_config_map W cr s) ≡ ok o
      → finalize W cr api s ≡ (ok tt, u)
      → (t v : W.State) × (o' : Secret) × (c : Allocation) × (W.get secret (secret_name ref) t
          ≡ ok o')
        × Stripped o o'
        × (release_ips W api cr.spec.network_key (record { ip = cr.status.ip }) t ≡ (ok tt, v))
        × (W.update allocation (without_finalizer W cr) v ≡ (ok c, u))
  unfolding finalize clean_up withdraw_secret
  finalize-Stripped cr ref api o s u there names wanted held found h =
      let sink = withdraw_secret W cr.spec.sinks.cluster_secret_labels in
      let write = W.update allocation (without_finalizer W cr) in
      let (_, r, deleted, rest) =
        >>=-eq-ok (withdraw_config_map W cr.spec.sinks.config_map)
          (λ (_ : Unit {0}). sink >> (release W cr api >> (write >> pure tt))) s (rw there at h) in
      let (t, v, c, withdrawn, released, written) =
        teardown-eq-ok sink (release W cr api) write tt r u rest in
      let found' : W.get secret (secret_name ref) r ≡ ok o =
        ap (λ (p : Result (Unit {0}) × W.State). W.get secret (secret_name ref) p.1) (sym deleted)
        ∙ found in
      let (o', got, stripped) = strip_cluster_secret-Stripped ref o r t found' (
        context-eq-ok "strip cluster secret" (strip_cluster_secret W ref) r
          (sym (ap (λ (x : Option SecretObjectRef). withdraw_secret W x r) names) ∙ withdrawn)) in
      (t, v, o', c, got, stripped, release-sent W cr api t v wanted held released, written)
