-- ===== src/LoadBalancer/Service.antt =====
-- `serviceRef` mode: the target Service, its IP and its previous one
-- (controller/loadbalancer_reconciler.go).
pub mod Restore
pub mod Histories
use clusterbook_operator.Prelude.{
  String, Bool, Option, some, none, ◌==◌, value_or, is_some, if◌then◌else◌,
}
use clusterbook_operator.Prelude.Map.{lookup, insert}
use clusterbook_operator.Exec.{
  Result, ok, err, is_not_found, Exec, pure, fail, reads, attempt, context, ◌>>=◌, ◌>>◌,
}
use clusterbook_operator.Api.Meta.{Service, ObjectMeta}
use clusterbook_operator.Api.LoadBalancer.{LoadBalancer, ServiceObjectRef, service_name}
use clusterbook_operator.World.{World}
use clusterbook_operator.World.Data.{service, load_balancer}

abbrev pub annotation_previous_lb_ip : String
annotation_previous_lb_ip = "clusterbook.stuttgart-things.com/previous-loadbalancer-ip"

-- The CR with the Service's IP in its annotation.
unfoldable pub with_previous : String → LoadBalancer → LoadBalancer
with_previous ip cr = record cr {
  meta = record cr.meta { annotations = insert annotation_previous_lb_ip ip cr.meta.annotations };
}

-- The prior IP that the CR's annotation holds; a missing annotation reads as "".
unfoldable pub previous_ip : LoadBalancer → String
previous_ip cr = value_or "" (lookup annotation_previous_lb_ip cr.meta.annotations)

module _ (W : World) where
  -- The annotation is written on the first patch only. The CR comes back as the server keeps it.
  unfoldable pub capture : LoadBalancer → String → Exec W.State LoadBalancer
  capture cr ip =
      if is_some (lookup annotation_previous_lb_ip cr.meta.annotations)
      then pure cr
      else context "record previous loadBalancerIP" (W.update load_balancer (with_previous ip cr))

  -- `if svc.Spec.LoadBalancerIP == ip { return nil }`, and the write.
  unfoldable pub set_ip : Service → String → Exec W.State Bool
  set_ip svc ip =
      if svc.load_balancer_ip == ip
      then pure Bool.false
      else do W.update service (record svc { load_balancer_ip = ip }); pure Bool.true

  -- `patchServiceLBIP`; it hands back the CR that it may have updated.
  unfoldable pub patch_service_lb_ip :
      ServiceObjectRef → LoadBalancer → String → Exec W.State LoadBalancer
  patch_service_lb_ip ref cr ip = do
    svc ← reads (W.get service (service_name ref))
    cr' ← capture cr svc.load_balancer_ip
    set_ip svc ip
    pure cr'

  -- A Service that is gone needs nothing.
  unfoldable pub restore_found : LoadBalancer → Result Service → Exec W.State (Unit {0})
  restore_found cr (ok svc) = do set_ip svc (previous_ip cr); pure tt
  restore_found cr (err e) = if is_not_found e then pure tt else fail e

  -- `restoreServiceLBIP`
  unfoldable pub restore_service_lb_ip : ServiceObjectRef → LoadBalancer → Exec W.State (Unit {0})
  restore_service_lb_ip ref cr = do
    found ← attempt (reads (W.get service (service_name ref)))
    restore_found cr found
