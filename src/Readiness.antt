-- ===== src/Readiness.antt =====
-- The readiness probe (controller/readiness.go) and its choice (`probe` of controller/reconciler.go).
-- The client that sends it, with its timeout of five seconds, is the world's.
use Prim.Native.String.{slice}
use clusterbook_operator.Prelude.{◌<>◌, false, none, some, eqb, if◌then◌else◌}
use clusterbook_operator.Prelude.Text.{trim_slash, trim_space}
use clusterbook_operator.Prelude.Number.{pos, show}
use clusterbook_operator.Exec.{Error, message, Exec, pure, fail, lift, context, ◌>>=◌, ◌>>◌}
use clusterbook_operator.World.{World}
use clusterbook_operator.World.Data.{RestConfig, HttpRequest, HttpResponse, method_get}

-- The request of the probe.
unfoldable pub readyz_request : RestConfig → HttpRequest
readyz_request cfg = record {
  method = method_get;
  url = trim_slash cfg.host <> "/readyz";
  json = false;
  body = "";
}

-- An answer other than 200, with the first 256 bytes of its body.
unfoldable pub not_ready : HttpResponse → Error
not_ready resp = message (
    "GET /readyz: HTTP "
    <> (show (pos resp.status_code) <> (": " <> trim_space (slice resp.body 0 256))))

unfoldable pub answered {ℓ} : {S : Type ℓ} → HttpResponse → Exec S (Unit {0})
answered resp = if eqb resp.status_code 200 then pure tt else fail (not_ready resp)

module _ (W : World) where
  -- `probeReadyz`
  unfoldable pub probe_readyz : RestConfig → Exec W.State (Unit {0})
  probe_readyz cfg = do
    context "build HTTP client" (lift (W.check_rest cfg))
    lift (W.codec.check_url (readyz_request cfg).url)
    resp ← W.send_rest cfg (readyz_request cfg)
    answered resp

  -- `probe`
  unfoldable pub probe : RestConfig → Exec W.State (Unit {0})
  probe cfg = elim W.custom_probe [ some f ↦ f cfg | none ↦ probe_readyz cfg ]
