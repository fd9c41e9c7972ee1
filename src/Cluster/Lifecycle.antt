-- ===== src/Cluster/Lifecycle.antt =====
-- The life of one `ClusterbookCluster`: edits by others, and reconciles (controller/reconciler.go).
pub mod Allocation
pub mod Recovered
pub mod Published
pub mod Run
use clusterbook_operator.Prelude.{
  ◌≡◌, ◌≢◌, refl, sym, ap, ◌∙◌, Bool, true, false, Option, none, some, arith, ==-ne,
}
use clusterbook_operator.Prelude.Reachable.{Reach, Reach-invariant}
use clusterbook_operator.Exec.{Result, ok, Exec, context, attempt, pure, ◌>>=◌, ◌>>◌}
use clusterbook_operator.Exec.Inversion.{>>=-eq-ok, result_or}
use clusterbook_operator.Api.Meta.{ObjectMeta, SecretKeyRef, SecretObjectRef}
use clusterbook_operator.Api.Cluster.{Cluster, ClusterSpec}
use clusterbook_operator.World.{World}
use clusterbook_operator.World.Data.{ClusterInfo, cluster}
use clusterbook_operator.Client.{Client, get_cluster_info}
use clusterbook_operator.Cluster.Metadata.{Allocated}
use clusterbook_operator.Cluster.Secrets.{enrich_existing_secret}
use clusterbook_operator.Cluster.Reservation.{
  is_registration_only, from_status, ensure_reservation, reconcile_dns_drift,
}
use clusterbook_operator.Cluster.Reconcile.{
  Outcome, with_info, set_condition, enriched, enrich_path, publish, allocate, allocate_from,
  result_option, final_status, Requeue, ensure_finalizer, reconcile_live,
}
use clusterbook_operator.Cluster.Reconcile.Ready.{render_path-ready}

-- The CR is off the registration-only path.
abbrev pub Reserves : Cluster → Type 0
Reserves cr = is_registration_only cr ≡ false

module _ (W : World) where
  -- What happens to the CR between two looks at it. A reconcile that fails writes no status.
  pub data Step : Cluster → Cluster → Type 0 where
    edited :
        (cr : Cluster) (m : ObjectMeta) (spec : ClusterSpec)
        → Step cr (record cr { meta = m; spec = spec })
    reconciled :
        (cr : Cluster) (api : Option Client) (alloc : Allocated) (info : Option ClusterInfo)
        (o : Outcome) (s t u : W.State)
        → allocate W cr api s ≡ (ok (alloc, info), t)
        → publish W cr.spec.existing_secret_ref cr.spec.kubeconfig_secret_ref cr alloc info t
          ≡ (ok o, u)
        → Step cr (final_status W o alloc info)

  enriched-ready :
      (ref : SecretObjectRef) (cr : Cluster) (missing : Bool)
      → (enriched W ref cr missing).status.cluster_ready ≡ cr.status.cluster_ready
  unfolding enriched set_condition
  enriched-ready ref cr true = refl
  enriched-ready ref cr false = refl

  module _ (alloc : Allocated) (info : Option ClusterInfo) where
    enrich_path-ready :
        (ref : SecretObjectRef) (cr : Cluster) (o : Outcome) (s t : W.State)
        → enrich_path W ref cr alloc info s ≡ (ok o, t)
        → o.cr.status.cluster_ready ≡ cr.status.cluster_ready
    unfolding enrich_path enriched set_condition
    enrich_path-ready ref cr o s t h =
        let (missing, u, _, rest) =
          >>=-eq-ok (context "enrich existing secret" (enrich_existing_secret W ref cr alloc info))
            (λ missing. pure (record {
              cr = enriched W ref cr missing;
              secret_name = ref.name;
              kubeconfig_hash = "";
              requeue = none;
            }))
            s h in
        sym (ap (λ (p : Result Outcome × W.State). (result_or o p.0).cr.status.cluster_ready) rest)
        ∙ enriched-ready ref cr missing

    publish-ready :
        (ref : Option SecretObjectRef) (kc : Option SecretKeyRef) (cr : Cluster) (o : Outcome)
        (s t : W.State)
        → publish W ref kc cr alloc info s ≡ (ok o, t)
        → cr.status.cluster_ready ≡ true
        → (final_status W o alloc info).status.cluster_ready ≡ true
    unfolding publish final_status with_info
    publish-ready (some ref) kc cr o s t h r = ground (arith, enrich_path-ready ref cr o s t h)
    publish-ready none (some ref) cr o s t h r = (render_path-ready W alloc info o ref cr s t h r).0
    publish-ready none none cr o s t h r = cc

    final_status-ip : (o : Outcome) → (final_status W o alloc info).status.ip ≡ alloc.ip
    unfolding final_status with_info
    final_status-ip o = ground arith

  step-ready :
      (c d : Cluster) → Step c d → c.status.cluster_ready ≡ true → d.status.cluster_ready ≡ true
  step-ready c d (edited cr m spec) h = h
  step-ready c d (reconciled cr api alloc info o s t u _ published) h =
      publish-ready alloc info cr.spec.existing_secret_ref cr.spec.kubeconfig_secret_ref cr o t u
        published h

  -- Readiness latches: through any sequence of edits of the spec and metadata and of reconciles
  -- that succeed, on the render and the enrich path, a status that says ready goes on saying
  -- so.
  pub Reach-ready :
      (P : Cluster → Type 0) (c d : Cluster)
      → Reach Step P c d
      → c.status.cluster_ready ≡ true
      → d.status.cluster_ready ≡ true
  Reach-ready P c d path h =
      Reach-invariant (λ e. e.status.cluster_ready ≡ true) (λ a b q p step. step-ready a b step q) d
        path h

  ensure_reservation-ip :
      (api : Client) (cr : Cluster) (alloc : Allocated) (s t : W.State)
      → cr.status.ip ≢ ""
      → ensure_reservation W api cr s ≡ (ok alloc, t)
      → alloc.ip ≡ cr.status.ip
  unfolding ensure_reservation from_status
  ensure_reservation-ip api cr alloc s t n h = ground (arith, ==-ne cr.status.ip "" n)

  -- An allocation is the reservation of a client.
  pub allocate_from-reserved :
      (api : Option Client) (cr : Cluster) (alloc : Allocated) (info : Option ClusterInfo)
      (s t : W.State)
      → allocate_from W cr api s ≡ (ok (alloc, info), t)
      → (client : Client) × (u : W.State) × (api ≡ some client)
        × (ensure_reservation W client cr s ≡ (ok alloc, u))
  unfolding allocate_from
  allocate_from-reserved none cr alloc info s t h = cc
  allocate_from-reserved (some api) cr alloc info s t h =
      let (a, u, first, rest) =
        >>=-eq-ok (ensure_reservation W api cr)
          (λ a.
            reconcile_dns_drift W api cr a.ip
            >> (attempt (get_cluster_info W api cr.spec.cluster_name) >>= λ found.
                pure (a, result_option found)))
          s h in
      let (_, v, _, rest') =
        >>=-eq-ok (reconcile_dns_drift W api cr a.ip)
          (λ (_ : Unit {0}). attempt (get_cluster_info W api cr.spec.cluster_name) >>= λ found.
            pure (a, result_option found))
          u rest in
      let same : a ≡ alloc =
        ap
          (λ (p : Result (Allocated × Option ClusterInfo) × W.State).
            (result_or (alloc, info) p.0).0)
          rest' in
      (api, u, refl, first ∙ λ i. (ok (same i), u))

  step-ip : (c d : Cluster) → Step c d → Reserves c → c.status.ip ≢ "" → d.status.ip ≡ c.status.ip
  unfolding allocate
  step-ip c d (edited cr m spec) r n = refl
  step-ip c d (reconciled cr api alloc info o s t u allocated _) r n =
      let (client, v, _, reserved) =
        allocate_from-reserved api cr alloc info s t (rw r at allocated) in
      final_status-ip alloc info o ∙ ensure_reservation-ip client cr alloc s v n reserved

  -- A cluster's IP is never exchanged: through any sequence of edits of its spec and metadata
  -- and of reconciles that succeed, none of which starts from a CR on the registration-only
  -- path, a status that holds an IP keeps that IP.
  pub Reach-ip :
      (c d : Cluster) → Reach Step Reserves c d → c.status.ip ≢ "" → d.status.ip ≡ c.status.ip
  Reach-ip c d path n =
      Reach-invariant (λ e. e.status.ip ≡ c.status.ip)
        (λ a b q r step. step-ip a b step r (λ h. n (sym q ∙ h)) ∙ q) d path refl
