-- ===== src/Cluster/Lifecycle/Published.antt =====
-- What a reconcile of a cluster does to its Secret, effect by effect (controller/reconciler.go).
use clusterbook_operator.Prelude.{
  String, ◌≡◌, refl, ap, subst, ◌∙◌, Bool, true, false, Option, some, none, Bool-cases, inl, inr,
}
use clusterbook_operator.Exec.{
  Error, Result, ok, err, is_not_found, is_already_exists, pure, fail, lift, attempt, context,
}
use clusterbook_operator.Exec.Inversion.{is_written, >>=-eq-ok, context-eq-ok, result_or}
use clusterbook_operator.Api.Meta.{Secret, SecretKeyRef, SecretObjectRef, secret_name}
use clusterbook_operator.Api.Cluster.{Cluster}
use clusterbook_operator.World.{World}
use clusterbook_operator.World.Data.{secret, ClusterInfo}
use clusterbook_operator.Client.Requests.{lift-eq-ok}
use clusterbook_operator.Cluster.Metadata.{Allocated, enrich_secret}
use clusterbook_operator.Cluster.Server.{
  Extracted, argo_config_from_kubeconfig, build_server_url, kubeconfig_hash,
}
use clusterbook_operator.Cluster.Secrets.{
  argo_secret, argo_secret_name, load_kubeconfig, render, unless_exists, upsert_argo_secret,
  enrich_found, enrich_existing_secret,
}
use clusterbook_operator.Cluster.Reconcile.{
  Requeue, Outcome, set_condition, reconciled, enriched, enrich_path, check_ready, write_rendered,
  render_with, render_from, render_path, publish,
}

module _ (W : World) (cr : Cluster) (alloc : Allocated) (info : Option ClusterInfo) where
  -- What is done to the Secret of the CR, by its two references, with the name for the status.
  pub data Published
      : Option SecretObjectRef → Option SecretKeyRef → String → W.State → W.State → Type 0 where
    secret_enriched :
        (ref : SecretObjectRef) (kc : Option SecretKeyRef) (o o' : Secret) (s t : W.State)
        → W.get secret (secret_name ref) s ≡ ok o
        → W.update secret (enrich_secret cr alloc info o) s ≡ (ok o', t)
        → Published (some ref) kc ref.name s t
    secret_absent :
        (ref : SecretObjectRef) (kc : Option SecretKeyRef) (e : Error) (s : W.State)
        → W.get secret (secret_name ref) s ≡ err e
        → is_not_found e ≡ true
        → Published (some ref) kc ref.name s s
    secret_rendered :
        (ref : SecretKeyRef) (kcfg : String) (x : Extracted) (checked : Cluster) (requeue : Requeue)
        (answer : Result Secret) (s t u v : W.State)
        → load_kubeconfig W ref s ≡ (ok kcfg, t)
        → argo_config_from_kubeconfig W.codec kcfg ≡ ok x
        → check_ready W cr (build_server_url cr alloc.ip x.server info) x.config t
          ≡ (ok (checked, requeue), u)
        → W.create_or_update secret
            (argo_secret checked)
            (render W checked alloc info
              (build_server_url cr alloc.ip x.server info)
              (kubeconfig_hash W.codec kcfg)
              x.config)
            u
          ≡ (answer, v)
        → is_written answer ≡ true
        → Published none (some ref) (argo_secret_name checked) s v

  enrich_found-cases :
      (ref : SecretObjectRef) (kc : Option SecretKeyRef) (found : Result Secret) (missing : Bool)
      (s t : W.State)
      → W.get secret (secret_name ref) s ≡ found
      → enrich_found W cr alloc info found s ≡ (ok missing, t)
      → Published (some ref) kc ref.name s t
  unfolding enrich_found
  enrich_found-cases ref kc (ok o) missing s t got h =
      let (o', u, wrote, rest) =
        >>=-eq-ok (W.update secret (enrich_secret cr alloc info o)) (λ (_ : Secret). pure false) s
          h in
      subst (λ v. Published (some ref) kc ref.name s v)
        (ap (λ (p : Result Bool × W.State). p.1) rest) (secret_enriched ref kc o o' s u got wrote)
  enrich_found-cases ref kc (err e) missing s t got h = elim (Bool-cases (is_not_found e)) [
    | inl y ↦
        subst (λ v. Published (some ref) kc ref.name s v)
          (ap (λ (p : Result Bool × W.State). p.1) (rw y at h)) (secret_absent ref kc e s got y)
    | inr n ↦ let refused : fail e s ≡ (ok missing, t) = rw n at h in cc
  ]

  enrich_path-Published :
      (ref : SecretObjectRef) (kc : Option SecretKeyRef) (o : Outcome) (s t : W.State)
      → enrich_path W ref cr alloc info s ≡ (ok o, t)
      → Published (some ref) kc o.secret_name s t
  unfolding enrich_path enrich_existing_secret
  enrich_path-Published ref kc o s t h =
      let outcome : Bool → Outcome = λ missing. record {
        cr = enriched W ref cr missing;
        secret_name = ref.name;
        kubeconfig_hash = "";
        requeue = none;
      } in
      let enrich = enrich_existing_secret W ref cr alloc info in
      let (missing, u, ran, rest) =
        >>=-eq-ok (context "enrich existing secret" enrich) (λ missing. pure (outcome missing)) s
          h in
      let named : ref.name ≡ o.secret_name =
        ap (λ (p : Result Outcome × W.State). (result_or o p.0).secret_name) rest in
      let same = ap (λ (p : Result Outcome × W.State). p.1) rest in
      let done =
        enrich_found-cases ref kc (W.get secret (secret_name ref) s) missing s u refl
          (context-eq-ok "enrich existing secret" enrich s ran) in
      subst (λ n. Published (some ref) kc n s t) named
        (subst (λ v. Published (some ref) kc ref.name s v) same done)

  unless_exists-written :
      (name n : String) (a : Result Secret) (s t : W.State)
      → unless_exists W name a s ≡ (ok n, t)
      → (is_written a ≡ true) × (name ≡ n) × (s ≡ t)
  unfolding unless_exists
  unless_exists-written name n (ok o) s t h = (
    refl,
    ap (λ (p : Result String × W.State). result_or n p.0) h,
    ap (λ (p : Result String × W.State). p.1) h,
  )
  unless_exists-written name n (err e) s t h = elim (Bool-cases (is_already_exists e)) [
    | inl y ↦
        let done : pure name s ≡ (ok n, t) = rw y at h in
        (
          y,
          ap (λ (p : Result String × W.State). result_or n p.0) done,
          ap (λ (p : Result String × W.State). p.1) done,
        )
    | inr no_other ↦ let refused : fail e s ≡ (ok n, t) = rw no_other at h in cc
  ]

  render_with-Published :
      (ref : SecretKeyRef) (kcfg : String) (x : Extracted) (o : Outcome) (r s t : W.State)
      → load_kubeconfig W ref r ≡ (ok kcfg, s)
      → argo_config_from_kubeconfig W.codec kcfg ≡ ok x
      → render_with W cr alloc info kcfg x s ≡ (ok o, t)
      → Published none (some ref) o.secret_name r t
  unfolding render_with write_rendered upsert_argo_secret
  render_with-Published ref kcfg x o r s t loaded extracted h =
      let server = build_server_url cr alloc.ip x.server info in
      let hash = kubeconfig_hash W.codec kcfg in
      let (checked, u, probed, rest) =
        >>=-eq-ok (check_ready W cr server x.config)
          (write_rendered W alloc info server hash x.config) s h in
      let upsert = upsert_argo_secret W checked.0 alloc info server hash x.config in
      let outcome : String → Outcome = λ name. record {
        cr = set_condition W (reconciled W) checked.0;
        secret_name = name;
        kubeconfig_hash = hash;
        requeue = checked.1;
      } in
      let (name, v, upserted, end) =
        >>=-eq-ok (context "upsert argo secret" upsert) (λ name. pure (outcome name)) u rest in
      let put =
        W.create_or_update secret (argo_secret checked.0)
          (render W checked.0 alloc info server hash x.config) in
      let (answer, w, asked, checked_answer) =
        >>=-eq-ok (attempt put) (unless_exists W (argo_secret_name checked.0)) u
          (context-eq-ok "upsert argo secret" upsert u upserted) in
      let (fine, named, same) =
        unless_exists-written (argo_secret_name checked.0) name answer w v checked_answer in
      let named' : argo_secret_name checked.0 ≡ o.secret_name =
        named ∙ ap (λ (p : Result Outcome × W.State). (result_or o p.0).secret_name) end in
      let same' : w ≡ t = same ∙ ap (λ (p : Result Outcome × W.State). p.1) end in
      subst (λ n. Published none (some ref) n r t) named'
        (subst (λ z. Published none (some ref) (argo_secret_name checked.0) r z) same'
          (secret_rendered ref kcfg x checked.0 checked.1 answer r s u w loaded extracted probed
            (λ i. (result_or answer (asked i).0, (asked i).1)) fine))

  pub publish-Published :
      (ref : Option SecretObjectRef) (kc : Option SecretKeyRef) (o : Outcome) (s t : W.State)
      → publish W ref kc cr alloc info s ≡ (ok o, t)
      → Published ref kc o.secret_name s t
  unfolding publish render_path render_from
  publish-Published (some ref) kc o s t h = enrich_path-Published ref kc o s t h
  publish-Published none (some ref) o s t h =
      let (kcfg, u, loaded, rest) =
        >>=-eq-ok (context "load kubeconfig" (load_kubeconfig W ref)) (render_from W cr alloc info)
          s h in
      let (x, v, extracted, rest') =
        >>=-eq-ok (context "extract kubeconfig" (lift (argo_config_from_kubeconfig W.codec kcfg)))
          (render_with W cr alloc info kcfg) u rest in
      let (read, same) =
        lift-eq-ok "extract kubeconfig" (argo_config_from_kubeconfig W.codec kcfg) u v x
          extracted in
      render_with-Published ref kcfg x o s v t
        (context-eq-ok "load kubeconfig" (load_kubeconfig W ref) s loaded
          ∙ (λ i. (ok kcfg, same i)))
        read rest'
  publish-Published none none o s t h = cc
