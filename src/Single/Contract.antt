-- ===== src/Single/Contract.antt =====
-- What the reservations rely on of the clusterbook server, which is not part of this repository.
use clusterbook_operator.Prelude.{String, ◌≡◌, Option, some, none, List, ◌∷◌, true, false}
use clusterbook_operator.Prelude.Number.{pos}
use clusterbook_operator.Exec.{ok}
use clusterbook_operator.World.{World}
use clusterbook_operator.World.Data.{
  IpInfo, ReserveRequest, ReserveResponse, HttpRequest, HttpResponse, method_get, method_post,
}
use clusterbook_operator.Client.{Client, network_url, only_ok, ok_or_created}
use clusterbook_operator.Cluster.Reservation.{find_reserved}

module _ (W : World) (c : Client) where
  abbrev pub list_message : String → HttpRequest
  list_message network_key = record {
    method = method_get;
    url = network_url W c network_key "ips";
    json = false;
    body = "";
  }

  abbrev pub reserve_message : String → String → HttpRequest
  reserve_message network_key body = record {
    method = method_post;
    url = network_url W c network_key "reserve";
    json = true;
    body = body;
  }

  -- The IP that the books of a network hold for a name.
  abbrev pub booked : (String → W.State → List IpInfo) → String → String → W.State → Option String
  booked listing network_key name s = find_reserved name (listing network_key s)

  -- The server's books, and what its answers say of them.
  pub record Clusterbook : Type 0 where
    -- The entries of a network.
    pub listing : String → W.State → List IpInfo
    -- A request that was accepted or refused, or whose answer was lost, takes no reservation away.
    pub list_keeps :
        (k network_key name ip : String) (s : W.State)
        → booked listing network_key name s ≡ some ip
        → booked listing network_key name (W.send c.tls (list_message k) s).1 ≡ some ip
    pub reserve_keeps :
        (k body network_key name ip : String) (s : W.State)
        → booked listing network_key name s ≡ some ip
        → booked listing network_key name (W.send c.tls (reserve_message k body) s).1 ≡ some ip
    -- The listing is what the books hold.
    pub list_answers :
        (k : String) (s t : W.State) (resp : HttpResponse) (entries : List IpInfo)
        → W.send c.tls (list_message k) s ≡ (ok resp, t)
        → only_ok resp.status_code ≡ true
        → W.codec.decode_ips resp.body ≡ ok entries
        → entries ≡ listing k t
    -- One IP that is reserved without DNS for a name that has none is booked for that name.
    pub reserve_books :
        (k body ip : String) (ips : List String) (req : ReserveRequest) (resv : ReserveResponse)
        (s t : W.State) (resp : HttpResponse)
        → req.count ≡ pos 1
        → req.create_dns ≡ false
        → booked listing k req.cluster s ≡ none
        → W.codec.encode_reserve req ≡ ok body
        → W.send c.tls (reserve_message k body) s ≡ (ok resp, t)
        → ok_or_created resp.status_code ≡ true
        → W.codec.decode_reserve resp.body ≡ ok resv
        → resv.ips ≡ ip ∷ ips
        → booked listing k req.cluster t ≡ some ip
