-- ===== src/LoadBalancer/Service/Restore.antt =====
-- A Service that is patched and restored (controller/loadbalancer_reconciler.go).
use clusterbook_operator.Prelude.{
  String, ◌≡◌, refl, sym, ap, subst, ◌∙◌, Bool, true, false, Option, none, some, arith, ◌==◌,
  eq_iff, value_or, is_some, Bool-cases, inl, inr, if◌then◌else◌,
}
use clusterbook_operator.Prelude.Map.{lookup, lookup-insert}
use clusterbook_operator.Exec.{Result, ok, pure, context, ◌>>=◌, ◌>>◌}
use clusterbook_operator.Exec.Inversion.{>>=-eq-ok, context-eq-ok}
use clusterbook_operator.Api.Meta.{Service, ObjectName}
use clusterbook_operator.Api.LoadBalancer.{LoadBalancer, ServiceObjectRef, service_name}
use clusterbook_operator.World.{World}
use clusterbook_operator.World.Data.{service, load_balancer}
use clusterbook_operator.World.Laws.{ServesServices}
use clusterbook_operator.LoadBalancer.Service.{
  annotation_previous_lb_ip, with_previous, previous_ip, capture, set_ip, patch_service_lb_ip,
  restore_found, restore_service_lb_ip,
}

abbrev pub captured : LoadBalancer → Bool
captured cr = is_some (lookup annotation_previous_lb_ip cr.meta.annotations)

lookup-with_previous :
    (ip : String) (cr : LoadBalancer)
    → lookup annotation_previous_lb_ip (with_previous ip cr).meta.annotations ≡ some ip
unfolding with_previous
lookup-with_previous ip cr = rw lookup-insert refl

module _ (W : World) where
  pub set_ip-same :
      (svc : Service) (ip : String) (s : W.State)
      → (svc.load_balancer_ip == ip) ≡ true
      → set_ip W svc ip s ≡ (ok false, s)
  unfolding set_ip
  set_ip-same svc ip s h = ground arith

  set_ip-write :
      (svc : Service) (ip : String) (s : W.State)
      → (svc.load_balancer_ip == ip) ≡ false
      → set_ip W svc ip s
        ≡ (W.update service (record svc { load_balancer_ip = ip }) >>= λ _. pure true) s
  unfolding set_ip
  set_ip-write svc ip s h = ground arith

  pub capture-old :
      (cr : LoadBalancer) (ip : String) (s : W.State)
      → captured cr ≡ true
      → capture W cr ip s ≡ (ok cr, s)
  unfolding capture
  capture-old cr ip s h = ground arith

  capture-new :
      (cr : LoadBalancer) (ip : String) (s : W.State)
      → captured cr ≡ false
      → capture W cr ip s
        ≡ context "record previous loadBalancerIP" (W.update load_balancer (with_previous ip cr)) s
  unfolding capture
  capture-new cr ip s h = ground arith

module _ (W : World) (laws : ServesServices W) where
  set_ip-get :
      (svc : Service) (ip : String) (b : Bool) (s t : W.State)
      → W.get service svc.meta.name s ≡ ok svc
      → set_ip W svc ip s ≡ (ok b, t)
      → (svc' : Service) × (W.get service svc.meta.name t ≡ ok svc') × (svc'.load_balancer_ip ≡ ip)
  set_ip-get svc ip b s t found h = elim (Bool-cases (svc.load_balancer_ip == ip)) [
    | inl e ↦
        let still = ap (λ (p : Result Bool × W.State). p.1) (sym (set_ip-same W svc ip s e) ∙ h) in
        (
          svc,
          subst (λ (u : W.State). W.get service svc.meta.name u ≡ ok svc) still found,
          (eq_iff svc.load_balancer_ip ip).0 e,
        )
    | inr e ↦
        let svc1 : Service = record svc { load_balancer_ip = ip } in
        let (o', u, written, done) =
          >>=-eq-ok (W.update service svc1) (λ (_ : Service). pure true) s
            (sym (set_ip-write W svc ip s e) ∙ h) in
        let moved = ap (λ (p : Result Bool × W.State). p.1) done in
        (
          o',
          subst (λ (v : W.State). W.get service svc.meta.name v ≡ ok o') moved
              (laws.get-update svc1 o' s u written),
          (laws.update_keeps svc1 o' s u written).0,
        )
  ]

  -- The first patch records the Service's IP in the CR, a later one keeps what is recorded; either
  -- way no Service changes.
  capture_lem :
      (cr cr' : LoadBalancer) (ip : String) (s t : W.State)
      → capture W cr ip s ≡ (ok cr', t)
      → (previous_ip cr' ≡ (if captured cr then previous_ip cr else ip))
        × (captured cr' ≡ true)
        × ((n : ObjectName) → W.get service n t ≡ W.get service n s)
  unfolding previous_ip
  capture_lem cr cr' ip s t h = elim (Bool-cases (captured cr)) [
    | inl e ↦
        let same = sym (capture-old W cr ip s e) ∙ h in
        let still = ap (λ (p : Result LoadBalancer × W.State). p.1) same in
        let kept : cr ≡ cr' = ground arith in
        (
          sym (ap previous_ip kept) ∙ sym (ap (λ (b : Bool). if b then previous_ip cr else ip) e),
          sym (ap captured kept) ∙ e,
          λ n. ap (W.get service n) (sym still),
        )
    | inr e ↦
        let written =
          context-eq-ok "record previous loadBalancerIP"
            (W.update load_balancer (with_previous ip cr)) s (sym (capture-new W cr ip s e) ∙ h) in
        let found : lookup annotation_previous_lb_ip cr'.meta.annotations ≡ some ip =
          ap (lookup annotation_previous_lb_ip)
            (laws.update_annotations (with_previous ip cr) cr' s t written)
          ∙ lookup-with_previous ip cr in
        (
          ap (value_or "") found ∙ sym (ap (λ (b : Bool). if b then previous_ip cr else ip) e),
          ap is_some found,
          λ n. laws.get-update_load_balancer (with_previous ip cr) cr' s t n written,
        )
  ]

  -- A patch leaves the Service with the new IP, and the CR with the IP to go back to.
  pub patch-get :
      (ref : ServiceObjectRef) (cr cr' : LoadBalancer) (svc : Service) (ip : String) (s t : W.State)
      → W.get service (service_name ref) s ≡ ok svc
      → patch_service_lb_ip W ref cr ip s ≡ (ok cr', t)
      → (svc' : Service) × (W.get service (service_name ref) t ≡ ok svc')
        × (svc'.load_balancer_ip ≡ ip)
        × (previous_ip cr' ≡ (if captured cr then previous_ip cr else svc.load_balancer_ip))
        × (captured cr' ≡ true)
  unfolding patch_service_lb_ip
  patch-get ref cr cr' svc ip s t found h =
      let (cr1, u, recorded, rest) =
        >>=-eq-ok (capture W cr svc.load_balancer_ip)
          (λ (c : LoadBalancer). set_ip W svc ip >> pure c) s (rw found at h) in
      let (b, v, written, done) = >>=-eq-ok (set_ip W svc ip) (λ (_ : Bool). pure cr1) u rest in
      let name = laws.get_name (service_name ref) svc s found in
      let kept = capture_lem cr cr1 svc.load_balancer_ip s u recorded in
      let there : W.get service svc.meta.name u ≡ ok svc =
        kept.2 svc.meta.name ∙ ap (λ (n : ObjectName). W.get service n s) name ∙ found in
      let (svc', got, holds) = set_ip-get svc ip b u v there written in
      let moved = ap (λ (p : Result LoadBalancer × W.State). p.1) done in
      let same : cr1 ≡ cr' = ground arith in
      (
        svc',
        subst (λ (w : W.State). W.get service (service_name ref) w ≡ ok svc') moved
            (subst (λ (n : ObjectName). W.get service n v ≡ ok svc') name got),
        holds,
        sym (ap previous_ip same) ∙ kept.0,
        sym (ap captured same) ∙ kept.1,
      )

  -- A restore leaves the Service with the IP that the CR's annotation holds.
  pub restore-get :
      (ref : ServiceObjectRef) (cr : LoadBalancer) (svc : Service) (s t : W.State)
      → W.get service (service_name ref) s ≡ ok svc
      → restore_service_lb_ip W ref cr s ≡ (ok tt, t)
      → (svc' : Service) × (W.get service (service_name ref) t ≡ ok svc')
        × (svc'.load_balancer_ip ≡ previous_ip cr)
  unfolding restore_service_lb_ip restore_found
  restore-get ref cr svc s t found h =
      let (b, v, written, done) =
        >>=-eq-ok (set_ip W svc (previous_ip cr)) (λ (_ : Bool). pure tt) s (rw found at h) in
      let name = laws.get_name (service_name ref) svc s found in
      let there : W.get service svc.meta.name s ≡ ok svc =
        ap (λ (n : ObjectName). W.get service n s) name ∙ found in
      let (svc', got, holds) = set_ip-get svc (previous_ip cr) b s v there written in
      let moved = ap (λ (p : Result (Unit {0}) × W.State). p.1) done in
      (
        svc',
        subst (λ (w : W.State). W.get service (service_name ref) w ≡ ok svc') moved
            (subst (λ (n : ObjectName). W.get service n v ≡ ok svc') name got),
        holds,
      )

  -- In a world whose API server serves Services as it was given them: if a CR that has recorded
  -- no previous IP patches its Service to one IP and later to another, and then restores it,
  -- all with success and with no other writer in between, the Service has the IP again that it
  -- had before the first patch.
  pub restore-patch-patch :
      (ref : ServiceObjectRef) (cr cr1 cr2 : LoadBalancer) (svc : Service) (ip1 ip2 : String)
      (s t u v : W.State)
      → lookup annotation_previous_lb_ip cr.meta.annotations ≡ none
      → W.get service (service_name ref) s ≡ ok svc
      → patch_service_lb_ip W ref cr ip1 s ≡ (ok cr1, t)
      → patch_service_lb_ip W ref cr1 ip2 t ≡ (ok cr2, u)
      → restore_service_lb_ip W ref cr2 u ≡ (ok tt, v)
      → (svc' : Service) × (W.get service (service_name ref) v ≡ ok svc')
        × (svc'.load_balancer_ip ≡ svc.load_balancer_ip)
  restore-patch-patch ref cr cr1 cr2 svc ip1 ip2 s t u v fresh found p1 p2 r =
      let first = patch-get ref cr cr1 svc ip1 s t found p1 in
      let second = patch-get ref cr1 cr2 first.0 ip2 t u first.1 p2 in
      let last = restore-get ref cr2 second.0 u v second.1 r in
      (
        last.0,
        last.1,
        last.2
            ∙ second.3
            ∙ ap (λ (b : Bool). if b then previous_ip cr1 else (first.0).load_balancer_ip) first.4
            ∙ first.3
            ∙ ap (λ (o : Option String). if is_some o then previous_ip cr else svc.load_balancer_ip)
                fresh,
      )
