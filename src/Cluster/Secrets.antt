-- ===== src/Cluster/Secrets.antt =====
-- What the reconciler does to Secrets: read the kubeconfig, render the ArgoCD cluster Secret,
-- enrich a foreign one and strip it again; and which CRs a Secret concerns
-- (controller/reconciler.go).
pub mod Foreign
use clusterbook_operator.Prelude.{
  String, ◌<>◌, Bool, true, false, ◌&&◌, ◌||◌, Option, none, some, List, [], ◌∷◌, ◌==◌, default_to,
  if◌then◌else◌,
}
use clusterbook_operator.Prelude.Map.{Map, lookup}
use clusterbook_operator.Exec.{
  Error, Result, ok, err, message, is_not_found, is_already_exists, Exec, pure, fail, lift, reads,
  attempt, and_then, ◌>>=◌, ◌>>◌,
}
use clusterbook_operator.Api.Meta.{
  ObjectName, ObjectMeta, Secret, SecretKeyRef, SecretObjectRef, secret_name, key_name,
}
use clusterbook_operator.Api.Cluster.{Cluster}
use clusterbook_operator.World.{World}
use clusterbook_operator.World.Data.{secret, cluster, ClusterInfo}
use clusterbook_operator.Shared.{default_argo_namespace, cluster_scoped}
use clusterbook_operator.Cluster.Metadata.{
  Allocated, rendered_labels, rendered_annotations, render_secret, enrich_secret, strip_secret,
}

-- `argoSecretName`
unfoldable pub argo_secret_name : Cluster → String
argo_secret_name cr = "cluster-" <> cr.spec.cluster_name

-- The name and namespace of the rendered Secret.
unfoldable pub argo_secret : Cluster → ObjectName
argo_secret cr = record {
  namespace = default_to default_argo_namespace cr.spec.argocd_namespace;
  name = argo_secret_name cr;
}

unfoldable pub refers_key : Option SecretKeyRef → ObjectName → Bool
refers_key none n = false
refers_key (some ref) n = ref.namespace == n.namespace && ref.name == n.name

unfoldable pub refers_object : Option SecretObjectRef → ObjectName → Bool
refers_object none n = false
refers_object (some ref) n = ref.namespace == n.namespace && ref.name == n.name

-- `referencesSecret`
unfoldable pub references_secret : Cluster → ObjectName → Bool
references_secret cr n =
    refers_key cr.spec.kubeconfig_secret_ref n || refers_object cr.spec.existing_secret_ref n

-- The loop of `clustersForSecret`.
unfoldable pub requests_for : ObjectName → List Cluster → List String
requests_for n [] = []
requests_for n (cr ∷ items) =
    let rest = requests_for n items in
    if references_secret cr n then cr.meta.name.name ∷ rest else rest

-- The kubeconfig's key in the Secret that was read.
unfoldable pub kubeconfig_of : SecretKeyRef → Secret → Result String
kubeconfig_of ref s =
    let key = default_to "kubeconfig" ref.key in
    elim (lookup key s.contents) [
      | some raw ↦ ok raw
      | none ↦ err (
          message (
            "key \""
            <> (key <> ("\" not found in secret " <> (ref.namespace <> ("/" <> ref.name))))))
    ]

module _ (W : World) where
  -- `clustersForSecret`: an error of the listing gives no request.
  unfoldable pub clusters_for_secret : ObjectName → W.State → List String
  clusters_for_secret n s = elim (W.list_clusters s) [
    | ok items ↦ requests_for n items
    | err e ↦ []
  ]

  -- `loadKubeconfig`
  unfoldable pub load_kubeconfig : SecretKeyRef → Exec W.State String
  load_kubeconfig ref = do s ← reads (W.get secret (key_name ref)); lift (kubeconfig_of ref s)

  -- The callback of `CreateOrUpdate`: the mutation, and the controller reference.
  unfoldable pub render :
      Cluster → Allocated → Option ClusterInfo → String → String → String → Secret → Result Secret
  render cr alloc info server kc_hash cfg_json s =
      let s' =
        render_secret cr (rendered_labels cr alloc info)
          (rendered_annotations cr alloc info kc_hash) server cfg_json s in
      and_then (W.machinery.set_controller_reference cluster cr s'.meta)
        λ m. ok (record s' { meta = m })

  -- A Secret that somebody else created in the meantime is no error.
  unfoldable pub unless_exists : String → Result Secret → Exec W.State String
  unless_exists name (ok s) = pure name
  unless_exists name (err e) = if is_already_exists e then pure name else fail e

  -- `upsertArgoSecret`; its caller uses only the Secret's name.
  unfoldable pub upsert_argo_secret :
      Cluster → Allocated → Option ClusterInfo → String → String → String → Exec W.State String
  upsert_argo_secret cr alloc info server kc_hash cfg_json = do
    written ←
        attempt (
          W.create_or_update secret (argo_secret cr) (render cr alloc info server kc_hash cfg_json))
    unless_exists (argo_secret_name cr) written

  -- The Secret that was read is enriched; a missing one is reported by `true`.
  unfoldable pub enrich_found :
      Cluster → Allocated → Option ClusterInfo → Result Secret → Exec W.State Bool
  enrich_found cr alloc info (ok s) = do W.update secret (enrich_secret cr alloc info s); pure false
  enrich_found cr alloc info (err e) = if is_not_found e then pure true else fail e

  -- `enrichExistingSecret`
  unfoldable pub enrich_existing_secret :
      SecretObjectRef → Cluster → Allocated → Option ClusterInfo → Exec W.State Bool
  enrich_existing_secret ref cr alloc info = do
    found ← attempt (reads (W.get secret (secret_name ref)))
    enrich_found cr alloc info found

  unfoldable pub strip_found : Result Secret → Exec W.State (Unit {0})
  strip_found (ok s) = do W.update secret (strip_secret s); pure tt
  strip_found (err e) = if is_not_found e then pure tt else fail e

  -- `stripEnrichedMetadata`
  unfoldable pub strip_enriched_metadata : SecretObjectRef → Exec W.State (Unit {0})
  strip_enriched_metadata ref = do
    found ← attempt (reads (W.get secret (secret_name ref)))
    strip_found found
