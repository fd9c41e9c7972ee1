-- ===== src/LoadBalancer/Service/Histories.antt =====
-- A Service through any number of patches (controller/loadbalancer_reconciler.go).
use clusterbook_operator.Prelude.{
  String, ◌≡◌, refl, ap, ◌∙◌, true, Option, none, value_or, eq_iff, is_some, if◌then◌else◌,
}
use clusterbook_operator.Prelude.Map.{lookup}
use clusterbook_operator.Exec.{Result, ok, pure, reads, ◌>>=◌, ◌>>◌}
use clusterbook_operator.Exec.Inversion.{>>=-eq-ok}
use clusterbook_operator.Api.Meta.{Service}
use clusterbook_operator.Api.LoadBalancer.{LoadBalancer, ServiceObjectRef, service_name}
use clusterbook_operator.World.{World}
use clusterbook_operator.World.Data.{service}
use clusterbook_operator.World.Laws.{ServesServices}
use clusterbook_operator.LoadBalancer.Service.{
  annotation_previous_lb_ip, previous_ip, capture, set_ip, patch_service_lb_ip,
  restore_service_lb_ip,
}
use clusterbook_operator.LoadBalancer.Service.Restore.{
  captured, capture-old, set_ip-same, patch-get, restore-get,
}

-- The prior IP that a CR has recorded.
abbrev pub recorded : LoadBalancer → Option String
recorded cr = lookup annotation_previous_lb_ip cr.meta.annotations

module _ (W : World) where
  -- The CRs that successful patches lead to. Between two of them anybody may write anything, to
  -- the Services and to the CR, its reference to a Service included, but not the recorded IP.
  pub data Patches (ref : ServiceObjectRef) (cr : LoadBalancer) (s : W.State)
      : LoadBalancer → Type 0 where
    first :
        (c : LoadBalancer) (ip : String) (t : W.State)
        → patch_service_lb_ip W ref cr ip s ≡ (ok c, t)
        → Patches ref cr s c
    again :
        (b c d : LoadBalancer) (now : ServiceObjectRef) (ip : String) (t u : W.State)
        → Patches ref cr s b
        → recorded c ≡ recorded b
        → patch_service_lb_ip W now c ip t ≡ (ok d, u)
        → Patches ref cr s d

  patch-found :
      (ref : ServiceObjectRef) (cr c : LoadBalancer) (ip : String) (s t : W.State)
      → patch_service_lb_ip W ref cr ip s ≡ (ok c, t)
      → (svc : Service) × (W.get service (service_name ref) s ≡ ok svc)
  unfolding patch_service_lb_ip
  patch-found ref cr c ip s t h =
      let (svc, u, read, _) =
        >>=-eq-ok (reads (W.get service (service_name ref)))
          (λ svc. capture W cr svc.load_balancer_ip >>= λ c. set_ip W svc ip >> pure c) s h in
      (svc, ap (λ (p : Result Service × W.State). p.0) read)

module _ (W : World) (laws : ServesServices W) where
  Patches-previous :
      (ref : ServiceObjectRef) (cr : LoadBalancer) (svc : Service) (s : W.State)
      → recorded cr ≡ none
      → W.get service (service_name ref) s ≡ ok svc
      → (c : LoadBalancer) → Patches W ref cr s c
      → (captured c ≡ true) × (previous_ip c ≡ svc.load_balancer_ip)
  unfolding previous_ip
  Patches-previous ref cr svc s fresh found c (first d ip t patched) =
      let (_, _, _, previous, known) = patch-get W laws ref cr d svc ip s t found patched in
      (
        known,
        previous
            ∙ ap (λ (o : Option String). if is_some o then previous_ip cr else svc.load_balancer_ip)
                fresh,
      )
  Patches-previous ref cr svc s fresh found c (again a b d now ip t u before same patched) =
      let (known, previous) = Patches-previous ref cr svc s fresh found a before in
      let (other, there) = patch-found W now b d ip t u patched in
      let (_, _, _, kept, still) = patch-get W laws now b d other ip t u there patched in
      (
        still,
        kept
            ∙ ap (λ x. if x then previous_ip b else other.load_balancer_ip)
                (ap is_some same ∙ known)
            ∙ ap (value_or "") same
            ∙ previous,
      )

  -- In a world whose API server serves Services as it was given them: a CR that had recorded no
  -- IP patches its Service, then, whatever others write to Services and to the CR except its
  -- recorded IP, patches any number of times more, each time the Service that it then names. If
  -- restoring succeeds after that, the Service that the CR names last, if it is there, has the
  -- IP that the Service named first had before the first patch.
  pub restore-Patches :
      (ref last : ServiceObjectRef) (cr b c : LoadBalancer) (svc old : Service) (s t u : W.State)
      → recorded cr ≡ none
      → W.get service (service_name ref) s ≡ ok svc
      → Patches W ref cr s b
      → recorded c ≡ recorded b
      → W.get service (service_name last) t ≡ ok old
      → restore_service_lb_ip W last c t ≡ (ok tt, u)
      → (svc' : Service) × (W.get service (service_name last) u ≡ ok svc')
        × (svc'.load_balancer_ip ≡ svc.load_balancer_ip)
  unfolding previous_ip
  restore-Patches ref last cr b c svc old s t u fresh found patches same there restored =
      let (svc', got, holds) = restore-get W laws last c old t u there restored in
      (
        svc',
        got,
        holds ∙ ap (value_or "") same ∙ (Patches-previous ref cr svc s fresh found b patches).1,
      )

  -- In such a world: if restoring succeeds for a CR that recorded no IP, and its Service is
  -- there, the Service's IP is empty afterwards, whatever it was.
  pub restore-unpatched :
      (ref : ServiceObjectRef) (cr : LoadBalancer) (svc : Service) (s t : W.State)
      → recorded cr ≡ none
      → W.get service (service_name ref) s ≡ ok svc
      → restore_service_lb_ip W ref cr s ≡ (ok tt, t)
      → (svc' : Service) × (W.get service (service_name ref) t ≡ ok svc')
        × (svc'.load_balancer_ip ≡ "")
  unfolding previous_ip
  restore-unpatched ref cr svc s t fresh found restored =
      let (svc', got, holds) = restore-get W laws ref cr svc s t found restored in
      (svc', got, holds ∙ ap (value_or "") fresh)

  -- In a world whose API server serves Services as it was given them: once a patch has
  -- succeeded, the same patch, with the CR that it handed back and no other writer in between,
  -- succeeds and changes nothing, neither the CR nor the state of the world.
  pub patch-settled :
      (ref : ServiceObjectRef) (cr c : LoadBalancer) (ip : String) (s t : W.State)
      → patch_service_lb_ip W ref cr ip s ≡ (ok c, t)
      → patch_service_lb_ip W ref c ip t ≡ (ok c, t)
  unfolding patch_service_lb_ip
  patch-settled ref cr c ip s t patched =
      let (svc, found) = patch-found W ref cr c ip s t patched in
      let (svc', got, holds, _, known) = patch-get W laws ref cr c svc ip s t found patched in
      rw
        (
          got,
          capture-old W c svc'.load_balancer_ip t known,
          set_ip-same W svc' ip t ((eq_iff svc'.load_balancer_ip ip).1 holds),
        )
        refl
