-- ===== src/Vcluster/Lifecycle.antt =====
-- The life of one `Vcluster`: edits by others, and reconciles (controller/vcluster_reconciler.go).
use clusterbook_operator.Prelude.{
  if-false, String, ◌≡◌, ◌≢◌, refl, sym, ap, ◌∙◌, Bool, true, false, Option, none, some, ==-ne,
  if◌then◌else◌,
}
use clusterbook_operator.Prelude.Reachable.{Reach, Reach-invariant}
use clusterbook_operator.Exec.{Result, ok, Exec, context, pure, ◌>>=◌}
use clusterbook_operator.Exec.Inversion.{>>=-eq-ok, result_or}
use clusterbook_operator.Api.Meta.{ObjectMeta, SecretObjectRef, ProviderConfig}
use clusterbook_operator.Api.Vcluster.{Vcluster, VclusterSpec, VclusterStatus}
use clusterbook_operator.World.{World}
use clusterbook_operator.World.Data.{ClusterInfo}
use clusterbook_operator.Client.{Client}
use clusterbook_operator.Shared.{load_provider_config, new_clusterbook_client}
use clusterbook_operator.Single.{ensure_single}
use clusterbook_operator.Cluster.Reconcile.{Requeue}
use clusterbook_operator.Vcluster.Child.{register_argo_cd}
use clusterbook_operator.Vcluster.Reconcile.{
  install_requeue, wish, status_with_info, set_condition, registered, api_for, ensure_reservation,
  allocate, waiting_status, final_status, reconcile_live, reconcile_found, finalize,
}

info-ip : (info : Option ClusterInfo) (st : VclusterStatus) → (status_with_info info st).ip ≡ st.ip
unfolding status_with_info
info-ip none st = refl
info-ip (some i) st = refl

module _ (W : World) where
  -- The two statuses that a reconcile writes, with when it asks to be run again.
  pub data Written (cr : Vcluster) (ip : String) (info : Option ClusterInfo)
      : Requeue → Vcluster → Type 0 where
    waiting :
        (app : String) → Written cr ip info (some install_requeue) (waiting_status W cr ip info app)
    finished :
        (app child : String) (ref : SecretObjectRef)
        → Written cr ip info none (final_status W cr ip info app ref child)

  -- What happens to the CR between two looks at it. A reconcile that fails writes no status.
  pub data Step : Vcluster → Vcluster → Type 0 where
    edited :
        (cr : Vcluster) (m : ObjectMeta) (spec : VclusterSpec)
        → Step cr (record cr { meta = m; spec = spec })
    reconciled :
        (cr d : Vcluster) (api : Option Client) (ip : String) (info : Option ClusterInfo)
        (r : Requeue) (s t u v : W.State)
        → api_for W cr s ≡ (ok api, t)
        → allocate W cr api u ≡ (ok (ip, info), v)
        → Written cr ip info r d
        → Step cr d

  registered-ip : (b : Bool) (st : VclusterStatus) → (registered W b st).ip ≡ st.ip
  unfolding registered set_condition
  registered-ip true st = refl
  registered-ip false st = refl

  -- The status that is written holds the IP.
  pub Written-ip :
      (cr : Vcluster) (ip : String) (info : Option ClusterInfo) (r : Requeue) (d : Vcluster)
      → Written cr ip info r d
      → d.status.ip ≡ ip
  unfolding waiting_status final_status set_condition status_with_info
  Written-ip cr ip none r d (waiting app) = refl
  Written-ip cr ip (some i) r d (waiting app) = refl
  Written-ip cr ip info r d (finished app child ref) =
      registered-ip (register_argo_cd cr.spec.argo_cd.register) _
      ∙ info-ip info (record cr.status { ip = ip })

  pub api_for-some :
      (cr : Vcluster) (api : Option Client) (s t : W.State)
      → cr.spec.network_key ≢ ""
      → api_for W cr s ≡ (ok api, t)
      → (client : Client) × (api ≡ some client)
  unfolding api_for
  api_for-some cr api s t n h =
      let build : ProviderConfig → Exec W.State Client =
        λ pc. context "build clusterbook client" (new_clusterbook_client W pc) in
      let (pc, u, _, rest) =
        >>=-eq-ok
          (context "load provider config" (load_provider_config W cr.spec.provider_config_ref))
          (λ pc. build pc >>= λ client. pure (some client)) s
          (rw (==-ne cr.spec.network_key "" n) at h) in
      let (client, v, _, rest') = >>=-eq-ok (build pc) (λ client. pure (some client)) u rest in
      (client, sym (ap (λ (p : Result (Option Client) × W.State). result_or api p.0) rest'))

  allocate-ip :
      (cr : Vcluster) (api : Client) (ip : String) (info : Option ClusterInfo) (s t : W.State)
      → cr.status.ip ≢ ""
      → allocate W cr (some api) s ≡ (ok (ip, info), t)
      → cr.status.ip ≡ ip
  unfolding allocate ensure_reservation ensure_single wish
  allocate-ip cr api ip info s t n h =
      ap (λ (p : Result (String × Option ClusterInfo) × W.State). (result_or (ip, info) p.0).0)
        (rw (==-ne cr.status.ip "" n) at h)

  step-ip :
      (c d : Vcluster)
      → Step c d
      → c.spec.network_key ≢ ""
      → c.status.ip ≢ ""
      → d.status.ip ≡ c.status.ip
  step-ip c d (edited cr m spec) k n = refl
  step-ip c d (reconciled cr e api ip info r s t u v built allocated write) k n =
      let (client, known) = api_for-some cr api s t k built in
      Written-ip cr ip info r e write
      ∙ sym (allocate-ip cr client ip info u v n (rw known at allocated))

  -- A vcluster's IP is never exchanged: through any sequence of edits of its spec and metadata
  -- and of reconciles that succeed, each of which starts from a CR that names a network, a
  -- status that holds an IP keeps that IP, while the chart is being installed and afterwards.
  pub Reach-vcluster_ip :
      (c d : Vcluster)
      → Reach Step (λ cr. cr.spec.network_key ≢ "") c d
      → c.status.ip ≢ ""
      → d.status.ip ≡ c.status.ip
  Reach-vcluster_ip c d path n =
      Reach-invariant (λ e. e.status.ip ≡ c.status.ip)
        (λ a b q k step. step-ip a b step k (λ h. n (sym q ∙ h)) ∙ q) d path refl

  -- The reconcile of a CR that is not being deleted.
  pub reconcile_found-inv :
      (cr : Vcluster) (r : Requeue) (s u : W.State)
      → cr.meta.deleting ≡ false
      → reconcile_found W cr s ≡ (ok r, u)
      → (api : Option Client) × (t : W.State) × (api_for W cr s ≡ (ok api, t))
        × (reconcile_live W cr api t ≡ (ok r, u))
  unfolding reconcile_found
  reconcile_found-inv cr r s u live h =
      let branch : Option Client → Exec W.State Requeue =
        λ api. if cr.meta.deleting then finalize W cr api else reconcile_live W cr api in
      let (api, t, built, rest) = >>=-eq-ok (api_for W cr) branch s h in
      (
        api,
        t,
        built,
        sym (
              ap (λ (m : Exec W.State Requeue). m t)
                (if-false cr.meta.deleting (finalize W cr api) (reconcile_live W cr api) live))
            ∙ rest,
      )
