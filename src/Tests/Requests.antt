-- ===== src/Tests/Requests.antt =====
-- Requests in the concrete world.
use clusterbook_operator.Prelude.{true, none, [], ◌∷◌}
use clusterbook_operator.Prelude.Number.{pos}
use clusterbook_operator.World.Data.{ReserveRequest, ReserveResponse}
use clusterbook_operator.Client.{Client, reserve_ips, release_ips}
use clusterbook_operator.Tests.Server.{world, store, Store}

abbrev api : Client
api = record { base_url = "https://clusterbook"; tls = none }

abbrev request : ReserveRequest
request = record { cluster = "prod"; count = pos 4; ip = ""; create_dns = true; status = "" }

abbrev response : ReserveResponse
response = record { ips = "10.0.0.7" ∷ "10.0.0.8" ∷ "10.0.0.9" ∷ []; status = "ASSIGNED" }

-- The store after a reservation, and after a release.
abbrev reserved_store : Store
reserved_store = (reserve_ips (world true) api "10.0.0" request store).1

abbrev released_store : Store
released_store = (release_ips (world true) api "10.0.0" (record { ip = "10.0.0.7" }) store).1
