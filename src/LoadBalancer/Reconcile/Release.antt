-- ===== src/LoadBalancer/Reconcile/Release.antt =====
-- When a load balancer's IP is released (controller/loadbalancer_reconciler.go).
use clusterbook_operator.Prelude.{◌≡◌, ◌≢◌, sym, ap, ◌∙◌, true, Option, some}
use clusterbook_operator.Exec.{ok}
use clusterbook_operator.Exec.Inversion.{context-eq-ok}
use clusterbook_operator.Shared.Teardown.{teardown-eq-ok, release-eq-ok}
use clusterbook_operator.Api.Meta.{Service}
use clusterbook_operator.Api.LoadBalancer.{LoadBalancer, ServiceObjectRef, service_name}
use clusterbook_operator.World.{World}
use clusterbook_operator.World.Data.{service, load_balancer}
use clusterbook_operator.World.Laws.{ServesServices}
use clusterbook_operator.Client.{Client, release_ips}
use clusterbook_operator.LoadBalancer.Service.{previous_ip, restore_service_lb_ip}
use clusterbook_operator.LoadBalancer.Service.Restore.{restore-get}
use clusterbook_operator.LoadBalancer.Reconcile.{
  lb_finalizer, withdraw, release, clean_up, finalize,
}

-- The CR with the operator's finalizer removed.
abbrev pub without_finalizer : World → LoadBalancer → LoadBalancer
without_finalizer W cr = record cr {
  meta = record cr.meta {
    finalizers = W.machinery.remove_finalizer cr.meta.finalizers lb_finalizer;
  };
}

module _ (W : World) where
  release-sent :
      (cr : LoadBalancer) (api : Client) (s t : W.State)
      → cr.spec.release_on_delete ≡ true
      → cr.status.ip ≢ ""
      → release W cr api s ≡ (ok tt, t)
      → release_ips W api cr.spec.network_key (record { ip = cr.status.ip }) s ≡ (ok tt, t)
  unfolding release
  release-sent cr api s t wanted held h =
      release-eq-ok cr.spec.release_on_delete cr.status.ip
        (release_ips W api cr.spec.network_key (record { ip = cr.status.ip })) s t wanted held h

module _ (W : World) (laws : ServesServices W) where
  -- In a world whose API server serves Services as it was given them: if finalize succeeds for
  -- a load balancer that has its finalizer, names a Service which is there, holds an IP and is
  -- to release it, then the Service had the IP that the CR recorded, or none if it recorded
  -- none, before the IP was released, the release succeeded in that state, and after that the
  -- CR was written without its finalizer, with which finalize ends.
  pub finalize-release :
      (cr : LoadBalancer) (ref : ServiceObjectRef) (api : Client) (svc : Service) (s u : W.State)
      → W.machinery.contains_finalizer cr.meta.finalizers lb_finalizer ≡ true
      → cr.spec.service_ref ≡ some ref
      → cr.spec.release_on_delete ≡ true
      → cr.status.ip ≢ ""
      → W.get service (service_name ref) s ≡ ok svc
      → finalize W cr api s ≡ (ok tt, u)
      → (t v : W.State) × (svc' : Service) × (o : LoadBalancer) × (W.get service
            (service_name ref)
            t
          ≡ ok svc')
        × (svc'.load_balancer_ip ≡ previous_ip cr)
        × (release_ips W api cr.spec.network_key (record { ip = cr.status.ip }) t ≡ (ok tt, v))
        × (W.update load_balancer (without_finalizer W cr) v ≡ (ok o, u))
  unfolding finalize clean_up withdraw
  finalize-release cr ref api svc s u there names wanted held found h =
      let (t, v, o, withdrawn, released, written) =
        teardown-eq-ok (withdraw W cr.spec.service_ref cr) (release W cr api)
          (W.update load_balancer (without_finalizer W cr)) tt s u (rw there at h) in
      let (svc', got, holds) = restore-get W laws ref cr svc s t found (
        context-eq-ok "restore service loadBalancerIP" (restore_service_lb_ip W ref cr) s
          (sym (ap (λ (r : Option ServiceObjectRef). withdraw W r cr s) names) ∙ withdrawn)) in
      (t, v, svc', o, got, holds, release-sent W cr api t v wanted held released, written)
