-- ===== src/Single/Lifecycle.antt =====
-- A CR that holds an IP, reserved once more with `ensure_single`: the load balancer's and the
-- allocation's (controller/loadbalancer_reconciler.go, controller/allocation_reconciler.go).
use clusterbook_operator.Prelude.{String, ◌≡◌, ◌≢◌, ap, ==-ne}
use clusterbook_operator.Exec.{Result, ok}
use clusterbook_operator.Exec.Inversion.{result_or}
use clusterbook_operator.World.{World}
use clusterbook_operator.Client.{Client}
use clusterbook_operator.Single.{Wish, ensure_single}

module _ (W : World) where
  -- The IP in the status is the one that is handed back.
  pub ensure_single-held :
      (api : Client) (w : Wish) (ip : String) (s t : W.State)
      → w.status_ip ≢ ""
      → ensure_single W api w s ≡ (ok ip, t)
      → w.status_ip ≡ ip
  unfolding ensure_single
  ensure_single-held api w ip s t n h =
      ap (λ (p : Result String × W.State). result_or ip p.0) (rw (==-ne w.status_ip "" n) at h)
