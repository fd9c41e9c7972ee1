-- ===== src/LoadBalancer/Reconcile/Finalize.antt =====
-- Errors of the load balancer's handlers (controller/loadbalancer_reconciler.go).
use clusterbook_operator.Prelude.{◌≡◌, refl, true, false, Option, some, none, is_some, Bool}
use clusterbook_operator.Exec.{Error, err, message, ◌>>◌}
use clusterbook_operator.Exec.Inversion.{>>-err}
use clusterbook_operator.Api.LoadBalancer.{LoadBalancer, ServiceObjectRef, CiliumPoolTarget}
use clusterbook_operator.World.{World}
use clusterbook_operator.Client.{Client}
use clusterbook_operator.LoadBalancer.Reconcile.{
  lb_finalizer, target_of, withdraw, release, clean_up, finalize, reconcile_checked, reconcile_live,
  ensure_finalizer,
}

abbrev contradiction : Bool → Error
contradiction true = message "spec.ciliumPool and spec.serviceRef are mutually exclusive"
contradiction false = message "spec.ciliumPool or spec.serviceRef must be set"

target_of-same :
    (p : Option CiliumPoolTarget) (r : Option ServiceObjectRef)
    → is_some p ≡ is_some r
    → target_of p r ≡ err (contradiction (is_some p))
unfolding target_of
target_of-same none none h = refl
target_of-same (some p) (some r) h = refl
target_of-same none (some r) h = cc
target_of-same (some p) none h = cc

module _ (W : World) (cr : LoadBalancer) (api : Client) (s : W.State) where
  -- An error of the Service's restoration or of the release ends the reconcile with that error, in
  -- the state that the failed step left: the finalizer is not removed.
  pub finalize-failed :
      (e : Error) (t : W.State)
      → W.machinery.contains_finalizer cr.meta.finalizers lb_finalizer ≡ true
      → (withdraw W cr.spec.service_ref cr >> release W cr api) s ≡ (err e, t)
      → finalize W cr api s ≡ (err e, t)
  unfolding finalize clean_up
  finalize-failed e t h failed =
      rw h (>>-err (withdraw W cr.spec.service_ref cr) (release W cr api) _ s e t failed)

  -- A load balancer that has its finalizer and names both a Cilium pool and a Service, or
  -- neither, fails with the message for that case, in the state that it was found in: nothing
  -- is reserved or written.
  pub reconcile_live-contradictory :
      W.machinery.contains_finalizer cr.meta.finalizers lb_finalizer ≡ true
      → is_some cr.spec.cilium_pool ≡ is_some cr.spec.service_ref
      → reconcile_live W cr api s ≡ (err (contradiction (is_some cr.spec.cilium_pool)), s)
  unfolding reconcile_live ensure_finalizer reconcile_checked
  reconcile_live-contradictory h same =
      rw (h, target_of-same cr.spec.cilium_pool cr.spec.service_ref same) refl
