-- ===== src/Tests/Books.antt =====
-- A clusterbook server with one IP, and reservations at it.
use clusterbook_operator.Prelude.{
  String, Bool, ◌≡◌, refl, sym, ap, ◌∙◌, some, none, List, [], ◌∷◌, true, false, not, ◌&&◌, ◌==◌,
  eq_iff, arith, if◌then◌else◌,
}
use clusterbook_operator.Exec.{Result, ok}
use clusterbook_operator.Exec.Inversion.{result_or}
use clusterbook_operator.World.{World}
use clusterbook_operator.World.Data.{
  IpInfo, ReserveResponse, HttpRequest, HttpResponse, Method, method_get, method_post, method_put,
}
use clusterbook_operator.Client.{Client, exchange, only_ok, ok_or_created, get_ips, reserve_ips}
use clusterbook_operator.Cluster.Reservation.{find_reserved}
use clusterbook_operator.Single.{
  Wish, ensure_single, listed_single, reserve_single, first_ip, single_request,
}
use clusterbook_operator.Single.Contract.{Clusterbook, reserve_message}
use clusterbook_operator.Single.Retry.{nothing, reservation, ensure_single-Meanwhile}
use clusterbook_operator.Tests.Fixture.{prod_entry}
use clusterbook_operator.Tests.Codec.{codec}
use clusterbook_operator.Tests.Server.{world, store, Store}

-- Who holds the IP: the body of the one request that was accepted.
abbrev holder : List HttpRequest → String
holder [] = ""
holder (r ∷ rs) = r.body

abbrev entries : String → List IpInfo
entries h = if h == "" then [] else record prod_entry { cluster = h } ∷ []

abbrev reply : Bool → HttpRequest → Store → Result HttpResponse × Store
reply true r s = (ok (record { status_code = 201; body = "" }), record s { requests = r ∷ [] })
reply false r s = (ok (record { status_code = 409; body = "" }), s)

abbrev free : HttpRequest → Store → Bool
free r s = holder s.requests == "" && not (r.body == "")

abbrev answer : Method → HttpRequest → Store → Result HttpResponse × Store
answer method_get r s = (ok (record { status_code = 200; body = holder s.requests }), s)
answer method_post r s = reply (free r s) r s
answer method_put r s = (ok (record { status_code = 404; body = "" }), s)

abbrev books : World
books = record (world true) {
  codec = record codec { decode_ips = λ h. ok (entries h) };
  send = λ tls r s. answer r.method r s;
}

abbrev api : Client
api = record { base_url = "https://clusterbook"; tls = none }

abbrev first_of : List String → String
first_of [] = ""
first_of (x ∷ xs) = x

abbrev listing : String → Store → List IpInfo
listing k s = entries (holder s.requests)

taken :
    (b : Bool) (r : HttpRequest) (n ip : String) (s : Store)
    → free r s ≡ b
    → find_reserved n (listing "" s) ≡ some ip
    → find_reserved n (listing "" (reply b r s).1) ≡ some ip
unfolding find_reserved
taken true r n ip s f h = ground arith
taken false r n ip s f h = h

find-entries :
    (x n : String) → (x == "") ≡ false → x ≡ n → find_reserved n (entries x) ≡ some "10.0.0.7"
unfolding find_reserved
find-entries x n named same = rw (named, (eq_iff x n).1 same) refl

free-named : (r : HttpRequest) (s : Store) → free r s ≡ true → (r.body == "") ≡ false
free-named r s h = ground arith

booked_now :
    (b : Bool) (r : HttpRequest) (n : String) (s t : Store) (resp : HttpResponse)
    → free r s ≡ b
    → r.body ≡ n
    → reply b r s ≡ (ok resp, t)
    → ok_or_created resp.status_code ≡ true
    → find_reserved n (listing "" t) ≡ some "10.0.0.7"
unfolding find_reserved ok_or_created
booked_now true r n s t resp f same h good =
    ap (λ (p : Result HttpResponse × Store). find_reserved n (listing "" p.1)) (sym h)
    ∙ find-entries r.body n (free-named r s f) same
booked_now false r n s t resp f same h good = ground arith

books-Clusterbook : Clusterbook books api
books-Clusterbook = record {
  listing = listing;
  list_keeps = λ k network_key n ip s h. h;
  reserve_keeps = λ k body network_key n ip s h.
      let r = reserve_message books api k body in taken (free r s) r n ip s refl h;
  list_answers = λ k s t resp es h good read.
      let same : resp.body ≡ holder t.requests =
        sym (ap (λ (p : Result HttpResponse × Store). (result_or resp p.0).body) h)
        ∙ ap (λ (p : Result HttpResponse × Store). holder p.1.requests) h in
      sym (ap (λ (p : Result (List IpInfo)). result_or es p) read) ∙ ap entries same;
  reserve_books = λ k body ip ips req resv s t resp count dns none_yet encoded sent good read shape.
      let r = reserve_message books api k body in
      let same : body ≡ req.cluster = sym (ap (result_or body) encoded) in
      let first : "10.0.0.7" ≡ ip =
        ap first_of (ap (λ (p : Result ReserveResponse). (result_or resv p).ips) read ∙ shape) in
      booked_now (free r s) r req.cluster s t resp refl same sent good ∙ ap some first;
}

abbrev edge_wish : Wish
edge_wish = record { status_ip = ""; network_key = "10.0.0"; name = "edge"; create_dns = false }

abbrev other_wish : Wish
other_wish = record edge_wish { name = "other" }

-- The server after the first reservation, after another's, and after the first was made again.
abbrev after_first : Store
after_first = (ensure_single books api edge_wish store).1

abbrev after_other : Store
after_other = (ensure_single books api other_wish after_first).1

ensure_single-Meanwhile_example :
    result_or "" (ensure_single books api edge_wish after_other).0 ≡ "10.0.0.7"
unfolding ensure_single listed_single reserve_single first_ip single_request find_reserved get_ips
    reserve_ips exchange only_ok ok_or_created
ensure_single-Meanwhile_example =
    ensure_single-Meanwhile books api books-Clusterbook edge_wish edge_wish "10.0.0.7"
      (result_or "" (ensure_single books api edge_wish after_other).0) store after_first after_other
      (ensure_single books api edge_wish after_other).1 refl refl refl refl refl refl
      (reservation after_first other_wish nothing) refl
