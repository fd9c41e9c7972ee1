-- ===== src/Vcluster/Run.antt =====
-- What a reconcile of a vcluster that succeeds does, one effect after the other
-- (controller/vcluster_reconciler.go).
use clusterbook_operator.Prelude.{String, ◌≡◌, ◌≢◌, sym, ap, ◌∙◌, true, false, Option, some}
use clusterbook_operator.Exec.{Result, ok, Exec, pure, attempt, ◌>>=◌}
use clusterbook_operator.Exec.Inversion.{is_written, >>=-eq-ok, context-eq-ok, result_or}
use clusterbook_operator.Api.Vcluster.{Vcluster}
use clusterbook_operator.World.{World}
use clusterbook_operator.World.Data.{vcluster, application, ClusterInfo, Fields, Unstructured}
use clusterbook_operator.Client.{Client, get_cluster_info}
use clusterbook_operator.Single.{ensure_single}
use clusterbook_operator.Cluster.Reconcile.{Requeue, result_option}
use clusterbook_operator.Vcluster.Target.{TargetResolution, resolve_target}
use clusterbook_operator.Vcluster.Application.{
  argo_namespace, application_name, build_helm_values, render_application, upsert_application,
}
use clusterbook_operator.Vcluster.Kubeconfig.{read_upstream_kubeconfig}
use clusterbook_operator.Vcluster.Reconcile.{
  vcluster_finalizer, wish, ensure_finalizer, ensure_reservation, allocate, publish, install,
  reconcile_live, reconcile_found,
}
use clusterbook_operator.Vcluster.Reconcile.Order.{install-inv}
use clusterbook_operator.Vcluster.Lifecycle.{
  Step, reconciled, Written-ip, reconcile_found-inv, api_for-some,
}
use clusterbook_operator.Vcluster.Finished.{Finished, publish-Finished, application-written}

module _ (W : World) where
  -- From the state in which the client is there to the end, with the CR `d` whose status is written
  -- last.
  pub record Run (cr d : Vcluster) (r : Requeue) (s u : W.State) : Type 0 where
    pub client : Client
    pub ip : String
    pub found : Result ClusterInfo
    pub target : TargetResolution
    pub values : Fields
    pub application_answer : Result Unstructured
    pub raw : Option String
    pub after_reservation : W.State
    pub after_info : W.State
    pub after_target : W.State
    pub after_application : W.State
    pub after_read : W.State
    pub after_finish : W.State
    pub reserved :
        ensure_single W client
          (record {
            status_ip = cr.status.ip;
            network_key = cr.spec.network_key;
            name = cr.spec.cluster_name;
            create_dns = true;
          })
          s
        ≡ (ok ip, after_reservation)
    pub told :
        get_cluster_info W client cr.spec.cluster_name after_reservation ≡ (found, after_info)
    pub resolved : resolve_target W cr after_info ≡ (ok target, after_target)
    pub valued : build_helm_values W.codec W.machinery cr ip (result_option found) ≡ ok values
    pub application_written :
        W.create_or_update application
          (record { namespace = argo_namespace cr; name = application_name cr })
          (render_application W cr target values)
          after_target
        ≡ (application_answer, after_application)
    pub application_fine : is_written application_answer ≡ true
    pub kubeconfig_read :
        read_upstream_kubeconfig W target.client cr after_application ≡ (ok raw, after_read)
    pub finish : Finished W cr ip (result_option found) raw r d after_read after_finish
    pub ip_written : d.status.ip ≡ ip
    pub status_written : (W.update_status vcluster d after_finish).1 ≡ u

  allocate-run :
      (cr : Vcluster) (client : Client) (ip : String) (info : Option ClusterInfo) (s v : W.State)
      → allocate W cr (some client) s ≡ (ok (ip, info), v)
      → (found : Result ClusterInfo) × (t : W.State) × (ensure_single W client (wish cr) s
          ≡ (ok ip, t))
        × (get_cluster_info W client cr.spec.cluster_name t ≡ (found, v))
        × (result_option found ≡ info)
  unfolding allocate ensure_reservation
  allocate-run cr client ip info s v h =
      let tell : Exec W.State (Result ClusterInfo) =
        attempt (get_cluster_info W client cr.spec.cluster_name) in
      let pair : String → Result ClusterInfo → Exec W.State (String × Option ClusterInfo) =
        λ ip found. pure (ip, result_option found) in
      let (a, t, reserved, rest) =
        >>=-eq-ok (ensure_reservation W client cr) (λ a. tell >>= pair a) s h in
      let (found, w, told, end) = >>=-eq-ok tell (pair a) t rest in
      let same : w ≡ v = ap (λ (p : Result (String × Option ClusterInfo) × W.State). p.1) end in
      let value : Result (String × Option ClusterInfo) × W.State → String × Option ClusterInfo =
        λ p. result_or (ip, info) p.0 in
      let first : a ≡ ip = ap (λ p. (value p).0) end in
      (
        found,
        t,
        reserved ∙ (λ i. (ok (first i), t)),
        (λ i. (result_or found (told i).0, (told i).1)) ∙ (λ i. (found, same i)),
        ap (λ p. (value p).1) end,
      )

  -- If a reconcile succeeds for a vcluster that has its finalizer, is not being deleted and
  -- names a network, then in this order, from the state in which the client was there: an IP
  -- was reserved for its name, network and status, with a DNS record, clusterbook was asked for
  -- its information, the host cluster was resolved, the Application was written with the
  -- chart's values for that IP and information, and the kubeconfig was looked for. (A write of
  -- the Application, of the Secret and of the child CR may also have been answered by their
  -- existing already.) Where there was none, the CR is looked at again after 15 seconds; else
  -- the kubeconfig, rewritten to the external URL, was written to its Secret and, exactly if
  -- registration is asked for, the child CR was written after that, and the CR is not looked at
  -- again. Last of all the waiting or the final status is written, whatever this write returns,
  -- of a CR that holds the reserved IP, and that CR is a step of the vcluster's life away.
  pub reconcile_found-Run :
      (cr : Vcluster) (r : Requeue) (s u : W.State)
      → cr.meta.deleting ≡ false
      → W.machinery.contains_finalizer cr.meta.finalizers vcluster_finalizer ≡ true
      → cr.spec.network_key ≢ ""
      → reconcile_found W cr s ≡ (ok r, u)
      → (d : Vcluster) × (t : W.State) × Step W cr d × Run cr d r t u
  unfolding reconcile_live ensure_finalizer wish
  reconcile_found-Run cr r s u live there network h =
      let (api, t, built, rest) = reconcile_found-inv W cr r s u live h in
      let (client, known) = api_for-some W cr api s t network built in
      let (p, v, allocated, installed) =
        >>=-eq-ok (allocate W cr (some client)) (λ p. install W cr p.0 p.1) t
          (rw there at (ap (λ (a : Option Client). reconcile_live W cr a t) (sym known) ∙ rest)) in
      let (found, t1, reserved, told, same) = allocate-run cr client p.0 p.1 t v allocated in
      let info = result_option found in
      let (target, app, raw, t2, t3, t4, resolved, upserted, read, rest') =
        install-inv W cr p.0 info v u r
          (ap (λ (i : Option ClusterInfo). install W cr p.0 i v) same ∙ installed) in
      let (values, answer, valued, wrote, fine, named) =
        application-written W cr target p.0 app info t2 t3 (
          context-eq-ok "upsert application" (upsert_application W cr target p.0 info) t2
            upserted) in
      let (d, t5, finish, write, done) =
        publish-Finished W cr p.0 info raw r t4 u
          (ap (λ (a : String). publish W cr p.0 info a raw t4) named ∙ rest') in
      (
        d,
        t,
        reconciled cr d (some client) p.0 info r s t t v (rw known at built)
            (allocated ∙ ap (λ (i : Option ClusterInfo). (ok (p.0, i), v)) (sym same)) write,
        record {
          client = client;
          ip = p.0;
          found = found;
          target = target;
          values = values;
          application_answer = answer;
          raw = raw;
          after_reservation = t1;
          after_info = v;
          after_target = t2;
          after_application = t3;
          after_read = t4;
          after_finish = t5;
          reserved = reserved;
          told = told;
          resolved = context-eq-ok "resolve target" (resolve_target W cr) v resolved;
          valued = valued;
          application_written = wrote;
          application_fine = fine;
          kubeconfig_read =
              context-eq-ok "read upstream kubeconfig" (read_upstream_kubeconfig W target.client cr)
                t3 read;
          finish = finish;
          ip_written = Written-ip W cr p.0 info r d write;
          status_written = done;
        },
      )
