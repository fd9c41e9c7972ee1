-- ===== src/Cluster/Secrets/Foreign.antt =====
-- Enrich mode end to end, and the CRs that a Secret wakes.
use clusterbook_operator.Prelude.{
  String, ◌≡◌, refl, ap, ◌∙◌, Bool, false, ◌&&◌, ◌||◌, Option, none, List, [], ◌∷◌, arith, ◌==◌,
  elem, is_some, if◌then◌else◌,
}
use clusterbook_operator.Prelude.Map.{lookup, keys}
use clusterbook_operator.Exec.{Result, ok, pure}
use clusterbook_operator.Exec.Inversion.{>>=-eq-ok}
use clusterbook_operator.Api.Meta.{ObjectName, Secret, SecretObjectRef, secret_name}
use clusterbook_operator.Api.Cluster.{Cluster}
use clusterbook_operator.World.{World}
use clusterbook_operator.World.Data.{secret, ClusterInfo}
use clusterbook_operator.World.Laws.{ServesSecrets}
use clusterbook_operator.Owned.Record.{AllKeys}
use clusterbook_operator.Cluster.Metadata.{
  Allocated, own_metadata, enriched_annotations, enrich_secret, strip_secret, has_prefix,
}
use clusterbook_operator.Cluster.Metadata.Ownership.{owns_label, owns_annotation}
use clusterbook_operator.Cluster.Metadata.Enrich.{strip-enrich-labels, strip-enrich-annotations}
use clusterbook_operator.Cluster.Secrets.{
  references_secret, requests_for, enrich_found, enrich_existing_secret, strip_found,
  strip_enriched_metadata,
}

-- The test whether a listed CR of this name refers to the Secret.
abbrev refers : ObjectName → String → List Cluster → Bool
refers n name [] = false
refers n name (cr ∷ items) =
    (cr.meta.name.name == name && references_secret cr n) || refers n name items

-- An event of a Secret wakes a name exactly when a listed CR of that name refers to the Secret,
-- as its kubeconfig or as the Secret to enrich.
pub elem-requests_for :
    (n : ObjectName) (name : String) (items : List Cluster)
    → elem name (requests_for n items) ≡ refers n name items
unfolding requests_for elem
elem-requests_for n name [] = refl
elem-requests_for n name (cr ∷ items) = ground (arith, elem-requests_for n name items)

-- Stripping looks only at the labels and annotations.
strip_secret-same :
    (p q : Secret)
    → p.meta.labels ≡ q.meta.labels
    → p.meta.annotations ≡ q.meta.annotations
    → ((strip_secret p).meta.labels ≡ (strip_secret q).meta.labels)
      × ((strip_secret p).meta.annotations ≡ (strip_secret q).meta.annotations)
unfolding strip_secret
strip_secret-same p q e f = (cc, cc)

-- `o'` is `o` without the metadata that the operator owns: its data are the same, and so is every
-- label and annotation that is not under clusterbook's prefix, is not named by a record on `o`, and,
-- for an annotation, is not a key of `spec.annotations`. All of those are gone.
abbrev pub Stripped : Cluster → Secret → Secret → Type 0
Stripped cr o o' =
    (o'.contents ≡ o.contents)
    × ((j : String)
        → (lookup j o'.meta.labels
            ≡ (if has_prefix j || owns_label o.meta j then none else lookup j o.meta.labels))
          × (lookup j o'.meta.annotations ≡ (
              if has_prefix j || is_some (lookup j cr.spec.annotations) || owns_annotation o.meta j
              then none
              else lookup j o.meta.annotations)))

module _ (W : World) (laws : ServesSecrets W) (ref : SecretObjectRef) where
  -- enriching writes the enriched Secret under the reference's name
  enrich_existing_secret-get :
      (cr : Cluster) (alloc : Allocated) (info : Option ClusterInfo) (o : Secret) (s t : W.State)
      → W.get secret (secret_name ref) s ≡ ok o
      → enrich_existing_secret W ref cr alloc info s ≡ (ok false, t)
      → (o' : Secret) × (W.get secret (secret_name ref) t ≡ ok o')
        × (W.update secret (enrich_secret cr alloc info o) s ≡ (ok o', t))
  unfolding enrich_existing_secret enrich_found enrich_secret own_metadata
  enrich_existing_secret-get cr alloc info o s t found h =
      let (o', u, written, done) =
        >>=-eq-ok (W.update secret (enrich_secret cr alloc info o)) (λ (_ : Secret). pure false) s
          (rw found at h) in
      let same : u ≡ t = ap (λ (p : Result Bool × W.State). p.1) done in
      let stored : W.update secret (enrich_secret cr alloc info o) s ≡ (ok o', t) =
        rw same at written in
      (
        o',
        rw (laws.get_name (secret_name ref) o s found) at (laws.get-update _ o' s t stored),
        stored,
      )

  -- The Secret that stripping writes back.
  strip_enriched_metadata-get :
      (o : Secret) (s t : W.State)
      → W.get secret (secret_name ref) s ≡ ok o
      → strip_enriched_metadata W ref s ≡ (ok tt, t)
      → (o' : Secret) × (W.get secret (secret_name ref) t ≡ ok o')
        × (W.update secret (strip_secret o) s ≡ (ok o', t))
  unfolding strip_enriched_metadata strip_found strip_secret
  strip_enriched_metadata-get o s t found h =
      let (o', u, written, done) =
        >>=-eq-ok (W.update secret (strip_secret o)) (λ (_ : Secret). pure tt) s (rw found at h) in
      let same : u ≡ t = ap (λ (p : Result (Unit {0}) × W.State). p.1) done in
      let stored : W.update secret (strip_secret o) s ≡ (ok o', t) = rw same at written in
      (
        o',
        rw (laws.get_name (secret_name ref) o s found) at (laws.get-update _ o' s t stored),
        stored,
      )

  -- In a world whose API server serves Secrets as it was given them: if enriching the
  -- referenced Secret and then stripping it both succeed, with no other writer in between and
  -- with desired annotation keys that are not empty and hold no comma, the Secret is there
  -- afterwards with the data that it had and with every label and annotation that it had,
  -- except those under clusterbook's prefix, those that a record on it named before, and the
  -- annotations at the keys of spec.annotations, which are all gone.
  pub strip-enrich_run :
      (cr : Cluster) (alloc : Allocated) (info : Option ClusterInfo) (o : Secret) (s t u : W.State)
      → AllKeys (keys (enriched_annotations cr alloc info))
      → W.get secret (secret_name ref) s ≡ ok o
      → enrich_existing_secret W ref cr alloc info s ≡ (ok false, t)
      → strip_enriched_metadata W ref t ≡ (ok tt, u)
      → (o' : Secret) × (W.get secret (secret_name ref) u ≡ ok o') × Stripped cr o o'
  unfolding enrich_secret strip_secret own_metadata
  strip-enrich_run cr alloc info o s t u hk found run1 run2 =
      let (p, got, stored) = enrich_existing_secret-get cr alloc info o s t found run1 in
      let (q, got', stored') = strip_enriched_metadata-get p t u got run2 in
      let kept =
        laws.update_keeps (enrich_secret cr alloc info o) p s t
          (laws.get_string_data (secret_name ref) o s found) stored in
      let kept' =
        laws.update_keeps (strip_secret p) q t u (laws.get_string_data (secret_name ref) p t got)
          stored' in
      let same = strip_secret-same p (enrich_secret cr alloc info o) kept.0 kept.1 in
      (
        q,
        got',
        (
          kept'.2 ∙ kept.2,
          λ j. (
            ap (lookup j) (kept'.0 ∙ same.0) ∙ strip-enrich-labels cr alloc info o j,
            ap (lookup j) (kept'.1 ∙ same.1) ∙ strip-enrich-annotations cr alloc info o j hk,
          ),
        ),
      )
