-- ===== src/Allocation/Lifecycle.antt =====
-- The steps of an allocation's life (controller/allocation_reconciler.go).
use clusterbook_operator.Prelude.{
  ◌≢◌, ◌∙◌, String, ◌≡◌, refl, sym, ap, false, true, Option, none, some, arith,
}
use clusterbook_operator.Exec.{Result, ok, err, Exec, attempt, reads, pure, ◌>>=◌, ◌>>◌}
use clusterbook_operator.Exec.Inversion.{>>=-eq-ok, context-eq-ok, result_or}
use clusterbook_operator.Shared.Provider.{with_client-live}
use clusterbook_operator.Api.Allocation.{Allocation, AllocationSpec}
use clusterbook_operator.Api.Meta.{ObjectMeta, Secret, SecretObjectRef, secret_name}
use clusterbook_operator.Allocation.Sinks.{
  enrich_secret, secret_missing, enrich_found, enrich_cluster_secret,
}
use clusterbook_operator.World.{World}
use clusterbook_operator.World.Data.{allocation, secret, ClusterInfo}
use clusterbook_operator.Client.{Client, get_cluster_info}
use clusterbook_operator.Cluster.Reconcile.{result_option}
use clusterbook_operator.Allocation.Written.{
  MapWritten, SecretWritten, publish_config_map-written, publish_secret-written,
}
use clusterbook_operator.Single.{ensure_single}
use clusterbook_operator.Single.Lifecycle.{ensure_single-held}
use clusterbook_operator.Prelude.Reachable.{Reach, Reach-invariant}
use clusterbook_operator.Allocation.Reconcile.{
  allocation_finalizer, wish, status_with_info, ensure_reservation, reconcile_dns_drift,
  ensure_finalizer, publish_config_map, publish_secret, final_status, reconcile_live,
  reconcile_found, finalize,
}

module _ (W : World) where
  -- What happens to the CR between two looks at it. A reconcile that fails writes no status; the
  -- sinks may change the conditions of the CR, which is then `c`.
  pub data Step : Allocation → Allocation → Type 0 where
    edited :
        (cr : Allocation) (m : ObjectMeta) (spec : AllocationSpec)
        → Step cr (record cr { meta = m; spec = spec })
    reconciled :
        (cr c : Allocation) (api : Client) (ip : String) (info : Option ClusterInfo) (s t : W.State)
        → ensure_reservation W api cr s ≡ (ok ip, t)
        → Step cr (final_status W c ip info)

  -- A missing Secret changes the CR's conditions alone.
  enrich_found-spec :
      (ref : SecretObjectRef) (cr c : Allocation) (ip : String) (info : Option ClusterInfo)
      (found : Result Secret) (s t : W.State)
      → enrich_found W ref cr ip info found s ≡ (ok c, t)
      → c.spec ≡ cr.spec
  unfolding enrich_found secret_missing
  enrich_found-spec ref cr c ip info (ok o) s t h =
      let (_, u, _, rest) =
        >>=-eq-ok (W.update secret (enrich_secret cr ip info o)) (λ (_ : Secret). pure cr) s h in
      sym (ap (λ (x : Result Allocation × W.State). (result_or c x.0).spec) rest)
  enrich_found-spec ref cr c ip info (err e) s t h = ground arith

  publish_secret-spec :
      (cr c : Allocation) (ip : String) (info : Option ClusterInfo) (sink : Option SecretObjectRef)
      (s t : W.State)
      → publish_secret W cr ip info sink s ≡ (ok c, t)
      → c.spec ≡ cr.spec
  unfolding publish_secret enrich_cluster_secret
  publish_secret-spec cr c ip info none s t h =
      sym (ap (λ (x : Result Allocation × W.State). (result_or c x.0).spec) h)
  publish_secret-spec cr c ip info (some ref) s t h =
      let (found, u, _, rest) =
        >>=-eq-ok (attempt (reads (W.get secret (secret_name ref)))) (enrich_found W ref cr ip info)
          s (context-eq-ok "enrich cluster secret" (enrich_cluster_secret W cr ip info ref) s h) in
      enrich_found-spec ref cr c ip info found u t rest

  -- The status that is written after the sinks were published.
  final_status-written :
      (cr c : Allocation) (ip : String) (info : Option ClusterInfo)
      → c.spec ≡ cr.spec
      → ((final_status W c ip info).status.ip ≡ ip)
        × ((final_status W c ip info).status.config_map_ref ≡ cr.spec.sinks.config_map)
        × ((final_status W c ip info).status.cluster_secret_ref
            ≡ cr.spec.sinks.cluster_secret_labels)
  unfolding final_status status_with_info
  final_status-written cr c ip none kept =
      (refl, ap (λ x. x.sinks.config_map) kept, ap (λ x. x.sinks.cluster_secret_labels) kept)
  final_status-written cr c ip (some i) kept =
      (refl, ap (λ x. x.sinks.config_map) kept, ap (λ x. x.sinks.cluster_secret_labels) kept)

  abbrev write : String → Option ClusterInfo → Allocation → Exec W.State (Unit {0})
  write ip info c = attempt (W.update_status allocation (final_status W c ip info)) >> pure tt

  -- The sinks, and the write of the status.
  abbrev publish : Allocation → String → Option ClusterInfo → Exec W.State (Unit {0})
  publish cr ip info =
      publish_config_map W cr ip info cr.spec.sinks.config_map
      >> (publish_secret W cr ip info cr.spec.sinks.cluster_secret_labels >>= write ip info)

  publish-inv :
      (cr : Allocation) (ip : String) (info : Option ClusterInfo) (s u : W.State)
      → publish cr ip info s ≡ (ok tt, u)
      → (c : Allocation) × (t v : W.State) × (c.spec ≡ cr.spec)
        × MapWritten W cr ip info cr.spec.sinks.config_map s t
        × SecretWritten W cr ip info cr.spec.sinks.cluster_secret_labels t v
        × ((W.update_status allocation (final_status W c ip info) v).1 ≡ u)
  publish-inv cr ip info s u h =
      let sink = publish_secret W cr ip info cr.spec.sinks.cluster_secret_labels in
      let (_, t, mapped, rest) =
        >>=-eq-ok (publish_config_map W cr ip info cr.spec.sinks.config_map)
          (λ (_ : Unit {0}). sink >>= write ip info) s h in
      let (c, v, sunk, rest') = >>=-eq-ok sink (write ip info) t rest in
      (
        c,
        t,
        v,
        publish_secret-spec cr c ip info cr.spec.sinks.cluster_secret_labels t v sunk,
        publish_config_map-written W cr ip info cr.spec.sinks.config_map s t mapped,
        publish_secret-written W cr c ip info cr.spec.sinks.cluster_secret_labels t v sunk,
        ap (λ (x : Result (Unit {0}) × W.State). x.1) rest',
      )

  -- What a reconcile of `cr` that succeeds does, from the state in which the client is there to the
  -- end, and the CR `d` whose status it writes last.
  pub record Run (cr d : Allocation) (s u : W.State) : Type 0 where
    pub api : Client
    pub ip : String
    pub found : Result ClusterInfo
    pub after_reservation : W.State
    pub after_drift : W.State
    pub after_info : W.State
    pub after_map : W.State
    pub after_secret : W.State
    pub reserved :
        ensure_single W api
          (record {
            status_ip = cr.status.ip;
            network_key = cr.spec.network_key;
            name = cr.spec.name;
            create_dns = cr.spec.create_dns;
          })
          s
        ≡ (ok ip, after_reservation)
    pub drift : reconcile_dns_drift W api cr ip after_reservation ≡ (ok tt, after_drift)
    pub told : get_cluster_info W api cr.spec.name after_drift ≡ (found, after_info)
    pub map_written :
        MapWritten W cr ip (result_option found) cr.spec.sinks.config_map after_info after_map
    pub secret_written :
        SecretWritten W cr ip
          (result_option found)
          cr.spec.sinks.cluster_secret_labels
          after_map
          after_secret
    pub ip_written : d.status.ip ≡ ip
    pub config_map_named : d.status.config_map_ref ≡ cr.spec.sinks.config_map
    pub secret_named : d.status.cluster_secret_ref ≡ cr.spec.sinks.cluster_secret_labels
    pub status_written : (W.update_status allocation d after_secret).1 ≡ u

  -- If a reconcile succeeds for an allocation that has its finalizer and is not being deleted,
  -- then in this order, from the state in which the client was there: an IP was reserved for
  -- its name, network, status and DNS wish, its DNS record was reconciled, clusterbook was
  -- asked for its information, the ConfigMap sink, if the spec has one, was written with
  -- exactly these, and so was the cluster Secret sink, unless the Secret was not there. Last of
  -- all the status is written, whatever this write returns, of a CR that holds the reserved IP
  -- and names the sinks of the spec, and that CR is a step of the allocation's life away.
  pub reconcile_found-allocation-Run :
      (cr : Allocation) (s u : W.State)
      → cr.meta.deleting ≡ false
      → W.machinery.contains_finalizer cr.meta.finalizers allocation_finalizer ≡ true
      → reconcile_found W cr s ≡ (ok tt, u)
      → (d : Allocation) × (t : W.State) × Step cr d × Run cr d t u
  unfolding reconcile_found reconcile_live ensure_finalizer ensure_reservation wish
  reconcile_found-allocation-Run cr s u live there h =
      let (api, t, rest) =
        with_client-live W cr.spec.provider_config_ref cr.meta.deleting (finalize W cr)
          (reconcile_live W cr) s live h in
      let told : Exec W.State (Result ClusterInfo) =
        attempt (get_cluster_info W api cr.spec.name) in
      let send : String → Result ClusterInfo → Exec W.State (Unit {0}) =
        λ ip found. publish cr ip (result_option found) in
      let (ip, v, reserved, rest1) =
        >>=-eq-ok (ensure_reservation W api cr)
          (λ ip. reconcile_dns_drift W api cr ip >> (told >>= send ip)) t (rw there at rest) in
      let (_, v2, drift, rest2) =
        >>=-eq-ok (reconcile_dns_drift W api cr ip) (λ (_ : Unit {0}). told >>= send ip) v rest1 in
      let (found, v3, heard, rest3) = >>=-eq-ok told (send ip) v2 rest2 in
      let (c, v4, v5, kept, mapped, sunk, done) =
        publish-inv cr ip (result_option found) v3 u rest3 in
      let (holds, maps, secrets) = final_status-written cr c ip (result_option found) kept in
      (
        final_status W c ip (result_option found),
        t,
        reconciled cr c api ip (result_option found) t v reserved,
        record {
          api = api;
          ip = ip;
          found = found;
          after_reservation = v;
          after_drift = v2;
          after_info = v3;
          after_map = v4;
          after_secret = v5;
          reserved = reserved;
          drift = drift;
          told = λ i. (result_or found (heard i).0, (heard i).1);
          map_written = mapped;
          secret_written = sunk;
          ip_written = holds;
          config_map_named = maps;
          secret_named = secrets;
          status_written = done;
        },
      )

  final_status-ip :
      (c : Allocation) (ip : String) (info : Option ClusterInfo)
      → (final_status W c ip info).status.ip ≡ ip
  unfolding final_status status_with_info
  final_status-ip c ip none = refl
  final_status-ip c ip (some i) = refl

  step-ip : (c d : Allocation) → Step c d → c.status.ip ≢ "" → d.status.ip ≡ c.status.ip
  unfolding ensure_reservation wish
  step-ip c d (edited cr m spec) n = refl
  step-ip c d (reconciled cr e api ip info s t reserved) n =
      final_status-ip e ip info ∙ sym (ensure_single-held W api (wish cr) ip s t n reserved)

  -- An allocation's IP is never exchanged: through any sequence of edits of its spec and
  -- metadata and of reconciles, each with a reservation that succeeds and the status that is
  -- then written, a status that holds an IP keeps that IP, whatever network, name and sinks the
  -- spec is given.
  pub Reach-allocation_ip :
      (c d : Allocation) → Reach Step (λ _. Unit) c d → c.status.ip ≢ "" → d.status.ip ≡ c.status.ip
  Reach-allocation_ip c d path n =
      Reach-invariant (λ e. e.status.ip ≡ c.status.ip)
        (λ a b q _ step. step-ip a b step (λ h. n (sym q ∙ h)) ∙ q) d path refl
