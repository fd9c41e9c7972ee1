-- ===== src/Cluster/Reconcile/Ready.antt =====
-- The readiness probe and the requeue of the render path (controller/reconciler.go).
use clusterbook_operator.Prelude.{
  String, Bool, ◌≡◌, refl, sym, ap, ◌∙◌, true, false, Option, none, some, arith, Bool-cases, inl,
  inr, if◌then◌else◌,
}
use clusterbook_operator.Exec.{Result, ok, err, Exec, lift, context, ◌>>=◌}
use clusterbook_operator.Exec.Inversion.{>>=-eq-ok, context-eq-ok, result_or}
use clusterbook_operator.Client.Requests.{lift-eq-ok}
use clusterbook_operator.Api.Meta.{SecretKeyRef}
use clusterbook_operator.Api.Cluster.{Cluster}
use clusterbook_operator.World.{World}
use clusterbook_operator.World.Data.{ClusterInfo, RestConfig}
use clusterbook_operator.Readiness.{probe}
use clusterbook_operator.Cluster.Metadata.{Allocated}
use clusterbook_operator.Cluster.Server.{
  Extracted, argo_config_from_kubeconfig, build_server_url, kubeconfig_hash, rest_config_from_argo,
}
use clusterbook_operator.Cluster.Secrets.{load_kubeconfig}
use clusterbook_operator.Cluster.Reconcile.{
  Requeue, probe_requeue, Outcome, with_info, set_condition, probe_cluster, probed, check_ready,
  render_path, render_from, render_with, write_rendered, final_status,
}

abbrev pub answered : Result (Unit {0}) → Bool
answered (ok x) = true
answered (err e) = false

-- The probe of a client configuration, if there is one.
abbrev pub asked :
    {S : Type 0} → (RestConfig → Exec S (Unit {0})) → Result RestConfig → Exec S (Unit {0})
asked ask (ok rest) s = ask rest s
asked ask (err e) s = (err e, s)

module _ (W : World) where
  pub ready-set_condition :
      (c : _) (cr : Cluster) → (set_condition W c cr).status.cluster_ready ≡ cr.status.cluster_ready
  unfolding set_condition
  ready-set_condition c cr = refl

  probed-requeue :
      (cr : Cluster) (server : String) (r : Result (Unit {0}))
      → cr.status.cluster_ready ≡ false
      → let (cr', requeue) = probed W cr server r in
        requeue ≡ (if cr'.status.cluster_ready then none else some probe_requeue)
  unfolding probed set_condition
  probed-requeue cr server (ok x) h = refl
  probed-requeue cr server (err e) h = rw h

  probed-answer :
      (cr : Cluster) (server : String) (r : Result (Unit {0}))
      → cr.status.cluster_ready ≡ false
      → ((probed W cr server r).1 ≡ (if answered r then none else some 30))
        × ((probed W cr server r).0.status.cluster_ready ≡ answered r)
  unfolding probed set_condition
  probed-answer cr server (ok x) h = (refl, refl)
  probed-answer cr server (err e) h = (refl, h)

  probe_cluster-asked :
      (ask : RestConfig → Exec W.State (Unit {0})) (server cfg : String) (s : W.State)
      → W.custom_probe ≡ some ask
      → probe_cluster W server cfg s ≡ asked ask (rest_config_from_argo W.codec server cfg) s
  unfolding probe_cluster probe
  probe_cluster-asked ask server cfg s h =
      asked-same (λ rest. rw h refl) (rest_config_from_argo W.codec server cfg)
    where
      asked-same :
          ((rest : RestConfig) → probe W rest s ≡ ask rest s)
          → (r : Result RestConfig) → (lift r >>= λ rest. probe W rest) s ≡ asked ask r s
      asked-same same (ok rest) = same rest
      asked-same same (err e) = refl

  -- A ready cluster is not probed: the step changes neither the CR nor the world.
  pub check_ready-ready :
      (cr : Cluster) (server cfg : String) (s : W.State)
      → cr.status.cluster_ready ≡ true
      → check_ready W cr server cfg s ≡ (ok (cr, none), s)
  unfolding check_ready
  check_ready-ready cr server cfg s h = rw h

  -- A cluster that is not ready is probed once, and what the probe answers decides.
  pub check_ready-probes :
      (cr : Cluster) (server cfg : String) (s : W.State)
      → cr.status.cluster_ready ≡ false
      → let (answer, t) = probe_cluster W server cfg s in
        check_ready W cr server cfg s ≡ (ok (probed W cr server answer), t)
  unfolding check_ready
  check_ready-probes cr server cfg s h = elim (Bool-cases cr.status.cluster_ready) [
    | inl e ↦ cc
    | inr e ↦ ground arith
  ]

  check_ready-requeue :
      (cr cr' : Cluster) (server cfg : String) (requeue : Requeue) (s t : W.State)
      → check_ready W cr server cfg s ≡ (ok (cr', requeue), t)
      → (requeue ≡ (if cr'.status.cluster_ready then none else some probe_requeue))
        × (cr.status.cluster_ready ≡ true → cr'.status.cluster_ready ≡ true)
  check_ready-requeue cr cr' server cfg requeue s t h = elim (Bool-cases cr.status.cluster_ready) [
    | inl e ↦ let same = sym (check_ready-ready cr server cfg s e) ∙ h in ground arith
    | inr e ↦
        let answer = (probe_cluster W server cfg s).0 in
        let same = sym (check_ready-probes cr server cfg s e) ∙ h in
        ground (arith, probed-requeue cr server answer e)
  ]

  module _ (alloc : Allocated) (info : Option ClusterInfo) (o : Outcome) where
    write_rendered-requeue :
        (server kc_hash cfg : String) (cr : Cluster) (requeue : Requeue) (s t : W.State)
        → write_rendered W alloc info server kc_hash cfg (cr, requeue) s ≡ (ok o, t)
        → (o.requeue ≡ requeue) × (o.cr.status.cluster_ready ≡ cr.status.cluster_ready)
    unfolding write_rendered set_condition
    write_rendered-requeue server kc_hash cfg cr requeue s t h = ground arith

    render_with-requeue :
        (cr : Cluster) (kcfg : String) (x : Extracted) (s t : W.State)
        → render_with W cr alloc info kcfg x s ≡ (ok o, t)
        → (o.requeue ≡ (if o.cr.status.cluster_ready then none else some probe_requeue))
          × (cr.status.cluster_ready ≡ true → o.cr.status.cluster_ready ≡ true)
    unfolding render_with
    render_with-requeue cr kcfg x s t h =
        let server = build_server_url cr alloc.ip x.server info in
        let (checked, u, probed_first, written) =
          >>=-eq-ok (check_ready W cr server x.config)
            (write_rendered W alloc info server (kubeconfig_hash W.codec kcfg) x.config) s h in
        let kept =
          write_rendered-requeue server (kubeconfig_hash W.codec kcfg) x.config checked.0 checked.1
            u t written in
        let latched = check_ready-requeue cr checked.0 server x.config checked.1 s u probed_first in
        ground arith

    -- The answer of the probe decides the requeue and the status.
    render_with-answer :
        (cr : Cluster) (kcfg : String) (x : Extracted) (s t : W.State)
        → cr.status.cluster_ready ≡ false
        → render_with W cr alloc info kcfg x s ≡ (ok o, t)
        → let answer =
            (probe_cluster W (build_server_url cr alloc.ip x.server info) x.config s).0 in
          (o.requeue ≡ (if answered answer then none else some 30))
          × (o.cr.status.cluster_ready ≡ answered answer)
    unfolding render_with
    render_with-answer cr kcfg x s t unready h =
        let server = build_server_url cr alloc.ip x.server info in
        let answer = (probe_cluster W server x.config s).0 in
        let (checked, u, first, written) =
          >>=-eq-ok (check_ready W cr server x.config)
            (write_rendered W alloc info server (kubeconfig_hash W.codec kcfg) x.config) s h in
        let kept =
          write_rendered-requeue server (kubeconfig_hash W.codec kcfg) x.config checked.0 checked.1
            u t written in
        let same : probed W cr server answer ≡ checked =
          ap (λ (p : Result (Cluster × Requeue) × W.State). result_or checked p.0)
            (sym (check_ready-probes cr server x.config s unready) ∙ first) in
        let (requeue, now) = probed-answer cr server answer unready in
        (
          kept.0 ∙ sym (ap (λ (p : Cluster × Requeue). p.1) same) ∙ requeue,
          kept.1 ∙ sym (ap (λ (p : Cluster × Requeue). p.0.status.cluster_ready) same) ∙ now,
        )

    render_path-latched :
        (ref : SecretKeyRef) (cr : Cluster) (s t : W.State)
        → render_path W ref cr alloc info s ≡ (ok o, t)
        → (o.requeue ≡ (if o.cr.status.cluster_ready then none else some probe_requeue))
          × (cr.status.cluster_ready ≡ true → o.cr.status.cluster_ready ≡ true)
    unfolding render_path render_from
    render_path-latched ref cr s t h =
        let (kcfg, u, loaded, rest) =
          >>=-eq-ok (context "load kubeconfig" (load_kubeconfig W ref))
            (render_from W cr alloc info) s h in
        let (x, v, extracted, rest') =
          >>=-eq-ok (context "extract kubeconfig" (lift (argo_config_from_kubeconfig W.codec kcfg)))
            (render_with W cr alloc info kcfg) u rest in
        render_with-requeue cr kcfg x v t rest'

    -- Where a custom probe is set: if the render path succeeds for a cluster that was not
    -- ready, the probe was asked with the client configuration that is built from the URL
    -- rendered for the CR and from the settings extracted from its kubeconfig, and got no
    -- answer where no configuration can be built. If it answered, the CR that is passed on is
    -- ready and no run is scheduled; if not, that CR is not ready and is looked at again after
    -- 30 seconds.
    pub render_path-requeue :
        (ref : SecretKeyRef) (cr : Cluster) (ask : RestConfig → Exec W.State (Unit {0}))
        (s t : W.State)
        → W.custom_probe ≡ some ask
        → cr.status.cluster_ready ≡ false
        → render_path W ref cr alloc info s ≡ (ok o, t)
        → (kcfg : String) × (x : Extracted) × (answer : Result (Unit {0})) × (u v : W.State)
          × (load_kubeconfig W ref s ≡ (ok kcfg, u))
          × (argo_config_from_kubeconfig W.codec kcfg ≡ ok x)
          × (asked ask
                (rest_config_from_argo W.codec
                  (build_server_url cr alloc.ip x.server info)
                  x.config)
                u
              ≡ (answer, v))
          × (o.requeue ≡ (if answered answer then none else some 30))
          × (o.cr.status.cluster_ready ≡ answered answer)
    unfolding render_path render_from
    render_path-requeue ref cr ask s t custom h ready =
        let (kcfg, u, loaded, rest) =
          >>=-eq-ok (context "load kubeconfig" (load_kubeconfig W ref))
            (render_from W cr alloc info) s ready in
        let (x, v, extracted, rest') =
          >>=-eq-ok (context "extract kubeconfig" (lift (argo_config_from_kubeconfig W.codec kcfg)))
            (render_with W cr alloc info kcfg) u rest in
        let (read, same) =
          lift-eq-ok "extract kubeconfig" (argo_config_from_kubeconfig W.codec kcfg) u v x
            extracted in
        let (requeue, now) = render_with-answer cr kcfg x v t h rest' in
        let server = build_server_url cr alloc.ip x.server info in
        let reply = probe_cluster W server x.config v in
        (
          kcfg,
          x,
          reply.0,
          u,
          reply.1,
          context-eq-ok "load kubeconfig" (load_kubeconfig W ref) s loaded,
          read,
          ap (asked ask (rest_config_from_argo W.codec server x.config)) same
              ∙ sym (probe_cluster-asked ask server x.config v custom),
          requeue,
          now,
        )

    -- Readiness latches: if the render path succeeds for a cluster that was ready, the status
    -- that the reconcile then writes says ready, and no further probe is scheduled.
    pub render_path-ready :
        (ref : SecretKeyRef) (cr : Cluster) (s t : W.State)
        → render_path W ref cr alloc info s ≡ (ok o, t)
        → cr.status.cluster_ready ≡ true
        → ((final_status W o alloc info).status.cluster_ready ≡ true) × (o.requeue ≡ none)
    unfolding final_status with_info
    render_path-ready ref cr s t h ready =
        let latched = render_path-latched ref cr s t h in let now = latched.1 ready in ground arith
