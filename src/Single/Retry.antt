-- ===== src/Single/Retry.antt =====
-- A reservation whose result was lost, and those of other CRs in between (`ensureReservation` of
-- controller/loadbalancer_reconciler.go, controller/allocation_reconciler.go and
-- controller/vcluster_reconciler.go).
use clusterbook_operator.Prelude.{
  String, ◌≡◌, refl, sym, ap, ◌∙◌, Option, some, none, List, [], ◌∷◌, false, eq_iff, arith,
}
use clusterbook_operator.Exec.{Result, ok, Exec, lift, context}
use clusterbook_operator.Exec.Inversion.{>>=-eq-ok, context-eq-ok, result_or}
use clusterbook_operator.World.{World}
use clusterbook_operator.World.Data.{IpInfo}
use clusterbook_operator.Client.{Client, get_ips, reserve_ips}
use clusterbook_operator.Client.Requests.{get_ips-sent, reserve_ips-sent}
use clusterbook_operator.Cluster.Reservation.{find_reserved}
use clusterbook_operator.Single.{
  Wish, single_request, first_ip, reserve_single, listed_single, ensure_single,
}
use clusterbook_operator.Single.Contract.{Clusterbook}
use clusterbook_operator.Single.Kept.{book, get_ips-Keeps, ensure_single-Keeps}

first_ip-eq-ok :
    (ips : List String) (ip : String)
    → first_ip ips ≡ ok ip
    → (rest : List String) × (ips ≡ ip ∷ rest)
unfolding first_ip
first_ip-eq-ok [] ip h = cc
first_ip-eq-ok (x ∷ xs) ip h = (xs, ground arith)

module _ (W : World) (c : Client) (B : Clusterbook W c) where
  -- What happens beside a CR: reservations of any wish, whatever they return, and whatever leaves
  -- the server's books as they are.
  pub data Meanwhile (s : W.State) : W.State → Type 0 where
    nothing : Meanwhile s s
    reservation : (t : W.State) (w : Wish) → Meanwhile s t → Meanwhile s (ensure_single W c w t).1
    elsewhere :
        (t u : W.State)
        → Meanwhile s t
        → ((k n : String) → book W c B k n u ≡ book W c B k n t)
        → Meanwhile s u

  Meanwhile-book :
      (k n ip : String) (s t : W.State)
      → Meanwhile s t
      → book W c B k n s ≡ some ip
      → book W c B k n t ≡ some ip
  Meanwhile-book k n ip s t nothing h = h
  Meanwhile-book k n ip s t (reservation u w before) h =
      ensure_single-Keeps W c B k n ip w u (Meanwhile-book k n ip s u before h)
  Meanwhile-book k n ip s t (elsewhere u v before same) h =
      same k n ∙ Meanwhile-book k n ip s u before h

  get_ips-books :
      (k : String) (s t : W.State) (entries : List IpInfo)
      → get_ips W c k s ≡ (ok entries, t)
      → entries ≡ B.listing k t
  get_ips-books k s t entries h =
      let (resp, sent, good, read) = get_ips-sent W c s t k entries h in
      B.list_answers k s t resp entries sent good read

  reserve_single-books :
      (w : Wish) (ip : String) (s t : W.State)
      → w.create_dns ≡ false
      → book W c B w.network_key w.name s ≡ none
      → reserve_single W c w s ≡ (ok ip, t)
      → book W c B w.network_key w.name t ≡ some ip
  unfolding reserve_single single_request
  reserve_single-books w ip s t dns free h =
      let ask = context "reserve IP" (reserve_ips W c w.network_key (single_request w)) in
      let (resv, u, asked, rest) = >>=-eq-ok ask (λ resv. lift (first_ip resv.ips)) s h in
      let (body, resp, encoded, sent, good, read) =
        reserve_ips-sent W c s u w.network_key (single_request w) resv
          (context-eq-ok "reserve IP" (reserve_ips W c w.network_key (single_request w)) s asked) in
      let (more, shape) =
        first_ip-eq-ok resv.ips ip (ap (λ (p : Result String × W.State). p.0) rest) in
      let same : u ≡ t = ap (λ (p : Result String × W.State). p.1) rest in
      sym (ap (book W c B w.network_key w.name) same)
      ∙ B.reserve_books w.network_key body ip more (single_request w) resv s u resp refl dns free
          encoded sent good read shape

  listed_single-books :
      (w : Wish) (ip : String) (found : Option String) (s t : W.State)
      → w.create_dns ≡ false
      → book W c B w.network_key w.name s ≡ found
      → listed_single W c w found s ≡ (ok ip, t)
      → book W c B w.network_key w.name t ≡ some ip
  unfolding listed_single
  listed_single-books w ip (some x) s t dns there h =
      let same : s ≡ t = ap (λ (p : Result String × W.State). p.1) h in
      sym (ap (book W c B w.network_key w.name) same)
      ∙ there
      ∙ ap some (ap (λ (p : Result String × W.State). result_or ip p.0) h)
  listed_single-books w ip none s t dns there h = reserve_single-books w ip s t dns there h

  listed_single-some :
      (w : Wish) (ip ip' : String) (s t : W.State)
      → listed_single W c w (some ip) s ≡ (ok ip', t)
      → ip' ≡ ip
  unfolding listed_single
  listed_single-some w ip ip' s t h = sym (ap (λ (p : Result String × W.State). result_or ip p.0) h)

  -- A reservation for a CR whose status is empty, taken apart.
  ensure_single-inv :
      (w : Wish) (ip : String) (s t : W.State)
      → w.status_ip ≡ ""
      → ensure_single W c w s ≡ (ok ip, t)
      → (u : W.State) × (get_ips W c w.network_key s ≡ (ok (B.listing w.network_key u), u))
        × (listed_single W c w (book W c B w.network_key w.name u) u ≡ (ok ip, t))
  unfolding ensure_single
  ensure_single-inv w ip s t fresh h =
      let listing = context "list IPs" (get_ips W c w.network_key) in
      let after : List IpInfo → Exec W.State String =
        λ existing. listed_single W c w (find_reserved w.name existing) in
      let (entries, u, listed, rest) =
        >>=-eq-ok listing after s (rw ((eq_iff w.status_ip "").1 fresh) at h) in
      let read = context-eq-ok "list IPs" (get_ips W c w.network_key) s listed in
      let same = get_ips-books w.network_key s u entries read in
      (u, read ∙ (λ i. (ok (same i), u)), sym (ap (λ (es : List IpInfo). after es u) same) ∙ rest)

  ensure_single-books :
      (w : Wish) (ip : String) (s t : W.State)
      → w.status_ip ≡ ""
      → w.create_dns ≡ false
      → ensure_single W c w s ≡ (ok ip, t)
      → book W c B w.network_key w.name t ≡ some ip
  ensure_single-books w ip s t fresh dns h =
      let (u, _, rest) = ensure_single-inv w ip s t fresh h in
      listed_single-books w ip (book W c B w.network_key w.name u) u t dns refl rest

  -- At a clusterbook server that keeps its books: if a CR with an empty status and without a
  -- DNS wish has its IP reserved, and the result is lost, then whatever other reservations
  -- return in between, and whatever else happens that leaves the server's books as they are, a
  -- reservation that succeeds for a CR with an empty status and the same name and network gives
  -- the same IP.
  pub ensure_single-Meanwhile :
      (w again : Wish) (ip ip' : String) (s t u v : W.State)
      → w.status_ip ≡ ""
      → w.create_dns ≡ false
      → again.status_ip ≡ ""
      → again.name ≡ w.name
      → again.network_key ≡ w.network_key
      → ensure_single W c w s ≡ (ok ip, t)
      → Meanwhile t u
      → ensure_single W c again u ≡ (ok ip', v)
      → ip' ≡ ip
  ensure_single-Meanwhile w again ip ip' s t u v fresh dns fresh' name net h between h' =
      let k = w.network_key in
      let (now, read, rest) = ensure_single-inv again ip' u v fresh' h' in
      let kept : book W c B k w.name now ≡ some ip =
        ap (λ (p : Result (List IpInfo) × W.State). book W c B k w.name p.1) (sym read)
        ∙ get_ips-Keeps W c B k w.name ip again.network_key u
            (Meanwhile-book k w.name ip t u between (ensure_single-books w ip s t fresh dns h)) in
      let there : book W c B again.network_key again.name now ≡ some ip =
        (λ i. book W c B (net i) (name i) now) ∙ kept in
      listed_single-some again ip ip' now v
        (sym (ap (λ f. listed_single W c again f now) there) ∙ rest)
