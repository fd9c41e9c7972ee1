-- ===== src/Shared/Provider.antt =====
-- What a step tells that starts by building the clusterbook client (controller/shared.go).
use clusterbook_operator.Prelude.{String, ◌≡◌, sym, ap, ◌∙◌, Bool, false, if-false, if◌then◌else◌}
use clusterbook_operator.Exec.{ok, Exec, context, ◌>>=◌}
use clusterbook_operator.Exec.Inversion.{>>=-eq-ok}
use clusterbook_operator.Api.Meta.{ProviderConfig}
use clusterbook_operator.World.{World}
use clusterbook_operator.Client.{Client}
use clusterbook_operator.Shared.{load_provider_config, new_clusterbook_client}

module _ (W : World) where
  -- The first two steps of a handler.
  abbrev pub with_client {ℓ} : {A : Type ℓ} → String → (Client → Exec W.State A) → Exec W.State A
  with_client ref k = do
    pc ← context "load provider config" (load_provider_config W ref)
    api ← context "build clusterbook client" (new_clusterbook_client W pc)
    k api

  pub with_client-eq-ok {ℓ} :
      {A : Type ℓ} (ref : String) (k : Client → Exec W.State A) (s : W.State) {a : A} {u : W.State}
      → with_client ref k s ≡ (ok a, u)
      → (api : Client) × (t : W.State) × (k api t ≡ (ok a, u))
  with_client-eq-ok ref k s h =
      let build : ProviderConfig → Exec W.State Client =
        λ pc. context "build clusterbook client" (new_clusterbook_client W pc) in
      let (pc, t, _, rest) =
        >>=-eq-ok (context "load provider config" (load_provider_config W ref))
          (λ pc. build pc >>= k) s h in
      let (api, u, _, rest') = >>=-eq-ok (build pc) k t rest in (api, u, rest')

  -- A handler that finalizes a CR that is being deleted, for one that is not.
  pub with_client-live {ℓ} :
      {A : Type ℓ} (ref : String) (deleting : Bool) (f g : Client → Exec W.State A) (s : W.State)
      {a : A} {u : W.State}
      → deleting ≡ false
      → with_client ref (λ api. if deleting then f api else g api) s ≡ (ok a, u)
      → (api : Client) × (t : W.State) × (g api t ≡ (ok a, u))
  with_client-live {A = A} ref deleting f g s live h =
      let (api, t, rest) = with_client-eq-ok ref (λ api. if deleting then f api else g api) s h in
      (
        api,
        t,
        sym (ap (λ (m : Exec W.State A). m t) (if-false deleting (f api) (g api) live)) ∙ rest,
      )
