-- ===== src/LoadBalancer/Reconcile/PoolDeletion.antt =====
-- Deletion of the pool that a reconcile published (controller/loadbalancer_reconciler.go).
use text.Mathlib.TextLemmas.{length-append}
use Prim.Native.String.{count}
use clusterbook_operator.Prelude.{
  String, ◌<>◌, ◌≡◌, ◌≢◌, refl, sym, ap, ◌∙◌, ◌+◌, List, true, Option, some, none, ◌==◌, ==-ne,
  eq_iff, Bool-cases, inl, inr, default_to, arith,
}
use clusterbook_operator.Exec.{Result, ok, pure, attempt, context, ◌>>◌}
use clusterbook_operator.Exec.Inversion.{>>=-eq-ok, context-eq-ok, result_or}
use clusterbook_operator.Shared.{cluster_scoped}
use clusterbook_operator.Shared.Teardown.{teardown-eq-ok}
use clusterbook_operator.Api.LoadBalancer.{LoadBalancer, ServiceObjectRef, CiliumPoolTarget}
use clusterbook_operator.World.{World}
use clusterbook_operator.World.Data.{ip_pool, load_balancer, ClusterInfo}
use clusterbook_operator.Client.{Client}
use clusterbook_operator.LoadBalancer.Pool.{upsert_cilium_pool}
use clusterbook_operator.LoadBalancer.Reconcile.{
  lb_finalizer, Published, pool_target, publish, final_status, status_with_info, withdraw, release,
  clean_up, finalize,
}
use clusterbook_operator.LoadBalancer.Reconcile.Release.{without_finalizer}

pool_name-ne : (name given : String) → default_to (name <> "-pool") given ≢ ""
pool_name-ne name given h = elim (Bool-cases (given == "")) [
  | inl e ↦
      let empty : name <> "-pool" ≡ "" = rw e at h in
      let counts : count name + 5 ≡ 0 = sym (length-append name "-pool") ∙ ap count empty in
      omega arith
  | inr e ↦
      let empty : given ≡ "" = rw e at h in
      let same : (given == "") ≡ true = (eq_iff given "").1 empty in cc
]

module _ (W : World) where
  withdraw-pool :
      (d : LoadBalancer) (name : String) (s t : W.State)
      → d.spec.service_ref ≡ none
      → d.status.pool_name ≡ name
      → name ≢ ""
      → withdraw W d.spec.service_ref d s ≡ (ok tt, t)
      → (W.delete ip_pool (cluster_scoped name) s).1 ≡ t
  unfolding withdraw
  withdraw-pool d name s t unset named n h =
      let at_none : withdraw W none d s ≡ (ok tt, t) =
        sym (ap (λ (r : Option ServiceObjectRef). withdraw W r d s) unset) ∙ h in
      let deleted : (attempt (W.delete ip_pool (cluster_scoped d.status.pool_name)) >> pure tt) s
          ≡ (ok tt, t) =
        rw (==-ne d.status.pool_name "" (λ e. n (sym named ∙ e))) at at_none in
      ap (λ (x : String). (W.delete ip_pool (cluster_scoped x) s).1) (sym named)
      ∙ ap (λ (p : Result (Unit {0}) × W.State). p.1) deleted

  final_status-kept :
      (p : Published) (ip : String) (info : Option ClusterInfo)
      → ((final_status W p ip info).meta.finalizers ≡ p.cr.meta.finalizers)
        × ((final_status W p ip info).spec.service_ref ≡ p.cr.spec.service_ref)
        × ((final_status W p ip info).status.pool_name ≡ p.pool_name)
  unfolding final_status status_with_info
  final_status-kept p ip none = (refl, refl, refl)
  final_status-kept p ip (some i) = (refl, refl, refl)

  -- The pool branch of the switch, taken apart.
  publish-pool :
      (cr : LoadBalancer) (p : CiliumPoolTarget) (done : Published) (ip : String)
      (info : Option ClusterInfo) (r s : W.State)
      → publish W cr ip info (pool_target p) r ≡ (ok done, s)
      → (upsert_cilium_pool W cr p.service_selector
            (default_to (cr.spec.name <> "-pool") p.pool_name)
            ip
            info
            r
          ≡ (ok tt, s))
        × (record {
          cr = cr;
          pool_name = default_to (cr.spec.name <> "-pool") p.pool_name;
          target_service_ref = none;
        }
            ≡ done)
  unfolding publish
  publish-pool cr p done ip info r s h =
      let name = default_to (cr.spec.name <> "-pool") p.pool_name in
      let upsert = upsert_cilium_pool W cr p.service_selector name ip info in
      let result : Published = record { cr = cr; pool_name = name; target_service_ref = none } in
      let (_, v, wrote, rest) =
        >>=-eq-ok (context "upsert cilium pool" upsert) (λ (_ : Unit {0}). pure result) r h in
      (
        context-eq-ok "upsert cilium pool" upsert r wrote
            ∙ (λ i. (ok tt, ap (λ (x : Result Published × W.State). x.1) rest i)),
        ap (λ (x : Result Published × W.State). result_or done x.0) rest,
      )

  -- For a load balancer that has its finalizer and names no Service: if its pool is published,
  -- and finalize succeeds, in whatever state, for the CR with the status that the reconcile
  -- writes, then there is one name under which the pool was written and is deleted first,
  -- whatever the deletion returns; in the state that this leaves the IP's release succeeded,
  -- and after that the CR was written without its finalizer, with which finalize ends.
  pub finalize-pool :
      (cr : LoadBalancer) (p : CiliumPoolTarget) (done : Published) (api : Client) (ip : String)
      (info : Option ClusterInfo) (r s t u : W.State)
      → W.machinery.contains_finalizer cr.meta.finalizers lb_finalizer ≡ true
      → cr.spec.service_ref ≡ none
      → publish W cr ip info (pool_target p) r ≡ (ok done, s)
      → finalize W (final_status W done ip info) api t ≡ (ok tt, u)
      → (name : String) × (v w : W.State) × (o : LoadBalancer) × (upsert_cilium_pool W cr
            p.service_selector name ip info r
          ≡ (ok tt, s))
        × ((W.delete ip_pool (cluster_scoped name) t).1 ≡ v)
        × (release W (final_status W done ip info) api v ≡ (ok tt, w))
        × (W.update load_balancer (without_finalizer W (final_status W done ip info)) w ≡ (ok o, u))
  unfolding finalize clean_up
  finalize-pool cr p done api ip info r s t u there unset published h =
      let name = default_to (cr.spec.name <> "-pool") p.pool_name in
      let d = final_status W done ip info in
      let (wrote, same) = publish-pool cr p done ip info r s published in
      let (finalizers, ref, pool) = final_status-kept done ip info in
      let found : W.machinery.contains_finalizer d.meta.finalizers lb_finalizer ≡ true =
        ap (λ (fs : List String). W.machinery.contains_finalizer fs lb_finalizer)
          (finalizers ∙ sym (ap (λ (x : Published). x.cr.meta.finalizers) same))
        ∙ there in
      let (v, w, o, withdrawn, released, written) =
        teardown-eq-ok (withdraw W d.spec.service_ref d) (release W d api)
          (W.update load_balancer (without_finalizer W d)) tt t u (rw found at h) in
      (
        name,
        v,
        w,
        o,
        wrote,
        withdraw-pool d name t v
            (ref ∙ sym (ap (λ (x : Published). x.cr.spec.service_ref) same) ∙ unset)
            (pool ∙ sym (ap (λ (x : Published). x.pool_name) same))
            (pool_name-ne cr.spec.name p.pool_name) withdrawn,
        released,
        written,
      )
