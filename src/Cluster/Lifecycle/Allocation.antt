-- ===== src/Cluster/Lifecycle/Allocation.antt =====
-- The IP and the range that a cluster's status holds through its life (controller/reconciler.go).
use clusterbook_operator.Prelude.{
  ◌≡◌, ◌≢◌, refl, sym, ap, ◌∙◌, true, Option, none, some, arith, ==-ne,
}
use clusterbook_operator.Prelude.Reachable.{Reach, Reach-invariant}
use clusterbook_operator.Exec.{Result, ok}
use clusterbook_operator.Exec.Inversion.{result_or}
use clusterbook_operator.Api.Cluster.{Cluster, LbRange}
use clusterbook_operator.World.{World}
use clusterbook_operator.World.Data.{ClusterInfo}
use clusterbook_operator.Client.{Client}
use clusterbook_operator.Cluster.Metadata.{Allocated}
use clusterbook_operator.Cluster.Reservation.{
  is_registration_only, registration_only_allocation, pinned_range, from_status, ensure_reservation,
}
use clusterbook_operator.Cluster.Reservation.Layers.{
  IsRange, resumed, from_status-ensure_reservation,
}
use clusterbook_operator.Cluster.Reconcile.{Outcome, with_info, allocate, final_status, release}
use clusterbook_operator.Cluster.Lifecycle.{
  Step, edited, reconciled, Reserves, allocate_from-reserved,
}

-- The allocation that a status holds.
abbrev pub held : Cluster → Allocated
held cr = record {
  ip = cr.status.ip;
  lb_range_start = cr.status.lb_range_start;
  lb_range_stop = cr.status.lb_range_stop;
}

-- The CR is off the registration-only path, and asks for this range.
abbrev pub Asks : Option LbRange → Cluster → Type 0
Asks range cr = Reserves cr × (cr.spec.lb_range ≡ range)

pinned_range-ip : (range : Option LbRange) → (pinned_range range).ip ≡ ""
unfolding pinned_range
pinned_range-ip none = refl
pinned_range-ip (some r) = refl

module _ (W : World) where
  held-final_status :
      (o : Outcome) (alloc : Allocated) (info : Option ClusterInfo)
      → held (final_status W o alloc info) ≡ alloc
  unfolding final_status with_info
  held-final_status o alloc none = refl
  held-final_status o alloc (some i) = refl

  ensure_reservation-held :
      (api : Client) (cr : Cluster) (alloc : Allocated) (s t : W.State)
      → cr.status.ip ≢ ""
      → ensure_reservation W api cr s ≡ (ok alloc, t)
      → alloc ≡ resumed cr.spec.lb_range (held cr)
  unfolding ensure_reservation from_status
  ensure_reservation-held api cr alloc s t n h = sym (
      ap (λ (p : Result Allocated × W.State). result_or alloc p.0)
        (rw (==-ne cr.status.ip "" n) at h))

  module _ (range : Option LbRange) where
    step-held :
        (c d : Cluster)
        → Step W c d
        → Asks range c
        → c.status.ip ≢ ""
        → resumed range (held c) ≡ held c
        → held d ≡ held c
    unfolding allocate
    step-held c d (edited cr m spec) p n settled = refl
    step-held c d (reconciled cr api alloc info o s t u allocated _) (r, asked) n settled =
        let (client, v, _, reserved) =
          allocate_from-reserved W api cr alloc info s t (rw r at allocated) in
        held-final_status o alloc info
        ∙ ensure_reservation-held client cr alloc s v n reserved
        ∙ rw asked settled

    Reach-settled :
        (c d : Cluster)
        → Reach (Step W) (Asks range) c d
        → c.status.ip ≢ ""
        → resumed range (held c) ≡ held c
        → held d ≡ held c
    Reach-settled c d path n settled =
        Reach-invariant (λ e. held e ≡ held c)
          (λ a b q p step.
            step-held a b step p (λ h. n (sym (ap (λ (x : Allocated). x.ip) q) ∙ h))
              (ap (resumed range) q ∙ settled ∙ sym q)
            ∙ q)
          d path refl

    -- Once a cluster's allocation succeeds with an IP that is not empty, for a range that pins
    -- no stop without a start, the status that the reconcile then writes holds exactly that IP
    -- and range, and so does every later one: through any sequence of edits and successful
    -- reconciles, none of which starts from a CR on the registration-only path or with another
    -- spec.lbRange.
    pub Reach-held :
        (c d : Cluster) (api : Option Client) (alloc : Allocated) (info : Option ClusterInfo)
        (o : Outcome) (s t : W.State)
        → IsRange range
        → Asks range c
        → allocate W c api s ≡ (ok (alloc, info), t)
        → alloc.ip ≢ ""
        → Reach (Step W) (Asks range) (final_status W o alloc info) d
        → held d ≡ alloc
    unfolding allocate from_status
    Reach-held c d api alloc info o s t r (reserves, asked) allocated n path =
        let (client, v, _, reserved) =
          allocate_from-reserved W api c alloc info s t (rw reserves at allocated) in
        let now = held-final_status o alloc info in
        let settled : resumed range alloc ≡ alloc =
          rw (sym asked)
            (from_status-ensure_reservation W client c s alloc v (rw asked r) reserved) in
        Reach-settled (final_status W o alloc info) d path
          (λ h. n (sym (ap (λ (a : Allocated). a.ip) now) ∙ h))
          (ap (resumed range) now ∙ settled ∙ sym now)
        ∙ now

  release-no_ip :
      (cr : Cluster) (client : Option Client) (u : W.State)
      → cr.status.ip ≡ ""
      → release W cr client u ≡ (ok tt, u)
  unfolding release
  release-no_ip cr none u e = refl
  release-no_ip cr (some api) u e = rw e (ground arith)

  -- If the allocation of a CR on the registration-only path succeeds, then whatever IP its
  -- status held before, the status that the reconcile writes with it makes the release of
  -- finalize do nothing, with any client.
  pub release-registration_only :
      (c : Cluster) (api client : Option Client) (alloc : Allocated) (info : Option ClusterInfo)
      (o : Outcome) (s t u : W.State)
      → is_registration_only c ≡ true
      → allocate W c api s ≡ (ok (alloc, info), t)
      → release W (final_status W o alloc info) client u ≡ (ok tt, u)
  unfolding allocate registration_only_allocation pinned_range
  release-registration_only c api client alloc info o s t u r allocated =
      let registered : registration_only_allocation c ≡ alloc =
        ap
          (λ (p : Result (Allocated × Option ClusterInfo) × W.State).
            (result_or (alloc, info) p.0).0)
          (rw r at allocated) in
      let none_held : (final_status W o alloc info).status.ip ≡ "" =
        ap (λ (a : Allocated). a.ip) (held-final_status o alloc info ∙ sym registered)
        ∙ pinned_range-ip c.spec.lb_range in
      release-no_ip (final_status W o alloc info) client u none_held
