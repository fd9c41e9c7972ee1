-- ===== src/Cluster/Reconcile/Finalize.antt =====
-- The order of `finalize`'s steps (controller/reconciler.go).
use clusterbook_operator.Shared.Teardown.{teardown-eq-ok}
use clusterbook_operator.Prelude.{◌≡◌, ◌≢◌, true, false, Option, some, none}
use clusterbook_operator.Exec.{Error, wrap, is_not_found, ok, err}
use clusterbook_operator.Api.Cluster.{Cluster}
use clusterbook_operator.World.{World}
use clusterbook_operator.World.Data.{cluster, secret}
use clusterbook_operator.Client.{Client, release_ips}
use clusterbook_operator.Api.Meta.{Secret, SecretObjectRef, secret_name}
use clusterbook_operator.Cluster.Metadata.{strip_secret}
use clusterbook_operator.Cluster.Secrets.{argo_secret}
use clusterbook_operator.Cluster.Reconcile.{finalizer, withdraw, release, clean_up, finalize}

-- The CR with the operator's finalizer removed.
abbrev pub without_finalizer : World → Cluster → Cluster
without_finalizer W cr = record cr {
  meta = record cr.meta { finalizers = W.machinery.remove_finalizer cr.meta.finalizers finalizer };
}

module _ (W : World) (cr : Cluster) (api : Option Client) (s : W.State) where
  -- For a CR that has the operator's finalizer: if finalize succeeds, the Secret's clean-up
  -- succeeded first, then the release, and then, in the state that those left, the write of the
  -- CR without the finalizer, with which finalize ends.
  pub finalize-done :
      (u : W.State)
      → W.machinery.contains_finalizer cr.meta.finalizers finalizer ≡ true
      → finalize W cr api s ≡ (ok none, u)
      → (t v : W.State) × (o : Cluster) × (withdraw W cr.spec.existing_secret_ref cr s ≡ (ok tt, t))
        × (release W cr api t ≡ (ok tt, v))
        × (W.update cluster (without_finalizer W cr) v ≡ (ok o, u))
  unfolding finalize clean_up
  finalize-done u h done =
      teardown-eq-ok (withdraw W cr.spec.existing_secret_ref cr) (release W cr api)
        (W.update cluster (without_finalizer W cr)) none s u (rw h at done)

module _ (W : World) (cr : Cluster) (client : Client) (s : W.State) where
  -- What the API server or clusterbook may refuse of a deletion, with the error of finalize and
  -- the state that the refusal left.
  pub data Refused : Error → W.State → Type 0 where
    secret_unread :
        (ref : SecretObjectRef) (e : Error)
        → cr.spec.existing_secret_ref ≡ some ref
        → W.get secret (secret_name ref) s ≡ err e
        → is_not_found e ≡ false
        → Refused (wrap "strip enriched metadata" e) s
    secret_unwritten :
        (ref : SecretObjectRef) (o : Secret) (e : Error) (t : W.State)
        → cr.spec.existing_secret_ref ≡ some ref
        → W.get secret (secret_name ref) s ≡ ok o
        → W.update secret (strip_secret o) s ≡ (err e, t)
        → Refused (wrap "strip enriched metadata" e) t
    rendered_unreleased :
        (e : Error) (t : W.State)
        → cr.spec.existing_secret_ref ≡ none
        → cr.spec.release_on_delete ≡ true
        → cr.status.ip ≢ ""
        → release_ips W client cr.spec.network_key
            (record { ip = cr.status.ip })
            (W.delete secret (argo_secret cr) s).1
          ≡ (err e, t)
        → Refused (wrap "release IP" e) t
    enriched_unreleased :
        (ref : SecretObjectRef) (o o' : Secret) (e : Error) (t u : W.State)
        → cr.spec.existing_secret_ref ≡ some ref
        → W.get secret (secret_name ref) s ≡ ok o
        → W.update secret (strip_secret o) s ≡ (ok o', t)
        → cr.spec.release_on_delete ≡ true
        → cr.status.ip ≢ ""
        → release_ips W client cr.spec.network_key (record { ip = cr.status.ip }) t ≡ (err e, u)
        → Refused (wrap "release IP" e) u
