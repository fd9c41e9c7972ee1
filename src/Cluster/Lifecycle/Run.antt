-- ===== src/Cluster/Lifecycle/Run.antt =====
-- What a reconcile of a cluster that succeeds does, one effect after the other
-- (controller/reconciler.go).
use clusterbook_operator.Prelude.{◌≡◌, refl, sym, ap, subst, ◌∙◌, true, false, Option, some, none}
use clusterbook_operator.Exec.{Result, ok, Exec, pure, attempt, ◌>>=◌, ◌>>◌}
use clusterbook_operator.Exec.Inversion.{>>=-eq-ok, result_or}
use clusterbook_operator.Api.Cluster.{Cluster}
use clusterbook_operator.World.{World}
use clusterbook_operator.World.Data.{cluster, ClusterInfo}
use clusterbook_operator.Client.{Client, get_cluster_info}
use clusterbook_operator.Cluster.Metadata.{Allocated}
use clusterbook_operator.Cluster.Reservation.{
  is_registration_only, ensure_reservation, reconcile_dns_drift,
}
use clusterbook_operator.Cluster.Lifecycle.Published.{Published, publish-Published}
use clusterbook_operator.Cluster.Lifecycle.{Step, reconciled as step}
use clusterbook_operator.Cluster.Reconcile.{
  Requeue, Outcome, finalizer, result_option, with_info, publish, allocate, allocate_from,
  ensure_finalizer, final_status, reconcile_live,
}

module _ (W : World) where
  -- What a reconcile of `cr` that succeeds does, from the state in which the client is there to the
  -- end, and the CR `d` whose status it writes last.
  pub record Run (client : Client) (cr d : Cluster) (s u : W.State) : Type 0 where
    pub alloc : Allocated
    pub found : Result ClusterInfo
    pub after_reservation : W.State
    pub after_drift : W.State
    pub after_info : W.State
    pub after_publish : W.State
    pub reserved : ensure_reservation W client cr s ≡ (ok alloc, after_reservation)
    pub drift : reconcile_dns_drift W client cr alloc.ip after_reservation ≡ (ok tt, after_drift)
    pub told : get_cluster_info W client cr.spec.cluster_name after_drift ≡ (found, after_info)
    pub published :
        Published W cr alloc
          (result_option found)
          cr.spec.existing_secret_ref
          cr.spec.kubeconfig_secret_ref
          d.status.secret_name
          after_info
          after_publish
    pub ip_written : d.status.ip ≡ alloc.ip
    pub start_written : d.status.lb_range_start ≡ alloc.lb_range_start
    pub stop_written : d.status.lb_range_stop ≡ alloc.lb_range_stop
    pub status_written : (W.update_status cluster d after_publish).1 ≡ u

  allocate_from-run :
      (cr : Cluster) (client : Client) (alloc : Allocated) (info : Option ClusterInfo)
      (s v : W.State)
      → allocate_from W cr (some client) s ≡ (ok (alloc, info), v)
      → (found : Result ClusterInfo) × (t1 t2 t3 : W.State) × (ensure_reservation W client cr s
          ≡ (ok alloc, t1))
        × (reconcile_dns_drift W client cr alloc.ip t1 ≡ (ok tt, t2))
        × (get_cluster_info W client cr.spec.cluster_name t2 ≡ (found, t3))
        × (result_option found ≡ info)
        × (t3 ≡ v)
  unfolding allocate_from
  allocate_from-run cr client alloc info s v h =
      let tell : Exec W.State (Result ClusterInfo) =
        attempt (get_cluster_info W client cr.spec.cluster_name) in
      let pair : Allocated → Result ClusterInfo → Exec W.State (Allocated × Option ClusterInfo) =
        λ a found. pure (a, result_option found) in
      let (a, t1, reserved, rest) =
        >>=-eq-ok (ensure_reservation W client cr)
          (λ a. reconcile_dns_drift W client cr a.ip >> (tell >>= pair a)) s h in
      let (_, t2, drift, rest') =
        >>=-eq-ok (reconcile_dns_drift W client cr a.ip) (λ (_ : Unit {0}). tell >>= pair a) t1
          rest in
      let (found, t3, told, end) = >>=-eq-ok tell (pair a) t2 rest' in
      let value : Result (Allocated × Option ClusterInfo) → Allocated × Option ClusterInfo =
        result_or (alloc, info) in
      let first : a ≡ alloc =
        ap (λ (p : Result (Allocated × Option ClusterInfo) × W.State). (value p.0).0) end in
      (
        found,
        t1,
        t2,
        t3,
        reserved ∙ (λ i. (ok (first i), t1)),
        ap (λ (x : Allocated). reconcile_dns_drift W client cr x.ip t1) (sym first) ∙ drift,
        λ i. (result_or found (told i).0, (told i).1),
        ap (λ (p : Result (Allocated × Option ClusterInfo) × W.State). (value p.0).1) end,
        ap (λ (p : Result (Allocated × Option ClusterInfo) × W.State). p.1) end,
      )

  final_status-written :
      (o : Outcome) (alloc : Allocated) (info : Option ClusterInfo)
      → ((final_status W o alloc info).status.ip ≡ alloc.ip)
        × ((final_status W o alloc info).status.lb_range_start ≡ alloc.lb_range_start)
        × ((final_status W o alloc info).status.lb_range_stop ≡ alloc.lb_range_stop)
        × (o.secret_name ≡ (final_status W o alloc info).status.secret_name)
  unfolding final_status with_info
  final_status-written o alloc none = (refl, refl, refl, refl)
  final_status-written o alloc (some i) = (refl, refl, refl, refl)

  -- If a reconcile succeeds for a CR that has its finalizer and is off the registration-only
  -- path, then in this order: what the cluster holds was reserved, its DNS record was
  -- reconciled, clusterbook was asked for its information, and the Secret was published from
  -- exactly these. In enrich mode the referenced Secret was written with its enrichment, or was
  -- not there; else the Secret that was rendered from the kubeconfig's settings and the probe's
  -- outcome was written, or the API server answered that it exists already. Last of all the
  -- status is written, whatever this write returns, of a CR that holds the reserved IP and
  -- range and names that Secret, and that CR is a step of the cluster's life away.
  pub reconcile_live-Run :
      (cr : Cluster) (client : Client) (r : Requeue) (s u : W.State)
      → W.machinery.contains_finalizer cr.meta.finalizers finalizer ≡ true
      → is_registration_only cr ≡ false
      → reconcile_live W cr (some client) s ≡ (ok r, u)
      → (d : Cluster) × Step W cr d × Run client cr d s u
  unfolding reconcile_live ensure_finalizer allocate allocate_from
  reconcile_live-Run cr client r s u there reserves h =
      let write : Allocated → Option ClusterInfo → Outcome → Exec W.State Requeue = λ alloc info o.
        attempt (W.update_status cluster (final_status W o alloc info)) >> pure o.requeue in
      let send : Allocated × Option ClusterInfo → Exec W.State Requeue = λ p.
        publish W cr.spec.existing_secret_ref cr.spec.kubeconfig_secret_ref cr p.0 p.1
        >>= write p.0 p.1 in
      let (p, v, allocated, rest) =
        >>=-eq-ok (allocate W cr (some client)) send s (rw there at h) in
      let (found, t1, t2, t3, reserved, drift, told, known, same) =
        allocate_from-run cr client p.0 p.1 s v (rw reserves at allocated) in
      let (o, w, published, end) =
        >>=-eq-ok (publish W cr.spec.existing_secret_ref cr.spec.kubeconfig_secret_ref cr p.0 p.1)
          (write p.0 p.1) v rest in
      let (ip, start, stop, name) = final_status-written o p.0 p.1 in
      let done =
        publish-Published W cr p.0 p.1 cr.spec.existing_secret_ref cr.spec.kubeconfig_secret_ref o v
          w published in
      let named : Published W cr p.0 p.1 cr.spec.existing_secret_ref cr.spec.kubeconfig_secret_ref
          (final_status W o p.0 p.1).status.secret_name v w =
        subst
          (λ n.
            Published W cr p.0 p.1 cr.spec.existing_secret_ref cr.spec.kubeconfig_secret_ref n v w)
          name done in
      (
        final_status W o p.0 p.1,
        step cr (some client) p.0 p.1 o s v w allocated published,
        record {
          alloc = p.0;
          found = found;
          after_reservation = t1;
          after_drift = t2;
          after_info = t3;
          after_publish = w;
          reserved = reserved;
          drift = drift;
          told = told;
          published =
              subst
                (λ z.
                  Published W cr p.0 (result_option found) cr.spec.existing_secret_ref
                    cr.spec.kubeconfig_secret_ref (final_status W o p.0 p.1).status.secret_name z w)
                (sym same)
                (subst
                  (λ i.
                    Published W cr p.0 i cr.spec.existing_secret_ref cr.spec.kubeconfig_secret_ref
                      (final_status W o p.0 p.1).status.secret_name v w)
                  (sym known) named);
          ip_written = ip;
          start_written = start;
          stop_written = stop;
          status_written = ap (λ (x : Result Requeue × W.State). x.1) end;
        },
      )
