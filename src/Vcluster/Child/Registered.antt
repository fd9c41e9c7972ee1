-- ===== src/Vcluster/Child/Registered.antt =====
-- The child of a vcluster, as the cluster reconciler sees it (controller/vcluster_reconciler.go,
-- controller/reconciler.go).
use text.Mathlib.TextLemmas.{cons-ne-nil, append-eq-nil_iff}
use clusterbook_operator.Prelude.{
  String, ◌<>◌, ◌≡◌, ◌≢◌, refl, ap, ◌∙◌, true, false, Option, none, some, ◌==◌, ==-ne, Bool-cases,
  inl, inr, if◌then◌else◌,
}
use clusterbook_operator.Prelude.Number.{is_zero, show}
use clusterbook_operator.Exec.{ok, Exec}
use clusterbook_operator.Api.Meta.{SecretObjectRef}
use clusterbook_operator.Api.Cluster.{Cluster, ClusterSpec}
use clusterbook_operator.Api.Vcluster.{Vcluster}
use clusterbook_operator.World.{World, Codec}
use clusterbook_operator.World.Data.{ClusterInfo, TlsConfig, HttpRequest, HttpResponse}
use clusterbook_operator.World.Laws.{ReadsBack}
use clusterbook_operator.Cluster.Server.{Extracted, argo_config_from_kubeconfig, build_server_url}
use clusterbook_operator.Cluster.Reservation.{is_registration_only}
use clusterbook_operator.Cluster.Reconcile.{reconcile_found}
use clusterbook_operator.Cluster.Reconcile.Registration.{reconcile_found-no_send}
use clusterbook_operator.Vcluster.Kubeconfig.{
  default_vcluster_server_port, external_server_url, rewrite_kubeconfig_server,
}
use clusterbook_operator.Vcluster.Kubeconfig.Rewrite.{rewrite-argo_config}
use clusterbook_operator.Vcluster.Child.{child_spec}

https-ne-nil : (rest : String) → ("https://" <> rest) ≢ ""
https-ne-nil rest e = cons-ne-nil "h" "ttps://" (append-eq-nil_iff.0 e).0

external_server_url-ne-nil :
    (cr : Vcluster) (info : Option ClusterInfo) → external_server_url cr info ≢ ""
unfolding external_server_url
external_server_url-ne-nil cr none e = https-ne-nil _ e
external_server_url-ne-nil cr (some info) e = elim (Bool-cases (info.fqdn == "")) [
  | inl h ↦ https-ne-nil _ (rw h at e)
  | inr h ↦ https-ne-nil _ (rw h at e)
]

module _ (cr : Vcluster) (ref : SecretObjectRef) (child : Cluster)
    (emitted : child.spec ≡ child_spec cr ref) where
  -- Where clientcmd reads back what it wrote: if settings are extracted from a vcluster's
  -- kubeconfig, and the kubeconfig is rewritten to the vcluster's external URL, then the
  -- cluster reconciler extracts from the result the same config, and the URL that it renders
  -- for the child CR, whatever IP and cluster information it is given, is that external URL.
  pub child-server :
      (C : Codec) (raw b ip : String) (info info' : Option ClusterInfo) (x : Extracted)
      → ReadsBack C
      → rewrite_kubeconfig_server C raw (external_server_url cr info) ≡ ok b
      → argo_config_from_kubeconfig C raw ≡ ok x
      → (y : Extracted) × (argo_config_from_kubeconfig C b ≡ ok y)
        × (build_server_url child ip y.server info' ≡ external_server_url cr info)
        × (y.config ≡ x.config)
  unfolding build_server_url child_spec
  child-server C raw b ip info info' x laws written extracted =
      let url = external_server_url cr info in
      let keeps : child.spec.preserve_kubeconfig_server ≡ true =
        ap (λ (s : ClusterSpec). s.preserve_kubeconfig_server) emitted in
      (
        record x { server = url },
        rewrite-argo_config C url x laws raw b written extracted,
        rw (keeps, ==-ne url "" (external_server_url-ne-nil cr info)) refl,
        refl,
      )

  -- The child CR of a vcluster is reconciled, and finalized, without one request to
  -- clusterbook: with any other transport in place of the world's own, its reconcile is the
  -- same function.
  pub child-no_send :
      (W : World) (send : Option TlsConfig → HttpRequest → Exec W.State HttpResponse)
      → reconcile_found W child ≡ reconcile_found (record W { send = send }) child
  unfolding child_spec is_registration_only
  child-no_send W send =
      reconcile_found-no_send W send child
        (rw (ap (λ (s : ClusterSpec). s.skip_reservation) emitted) refl)

  -- Where clientcmd reads back what it wrote, and clusterbook reports the wildcard record of a
  -- zone: if a vcluster's kubeconfig is rewritten to its external URL, and settings can be
  -- extracted from the original, the URL that the cluster reconciler renders for the child has
  -- the literal wildcard for its host, and the CR's port, 443 if it is zero.
  pub child-server-wildcard :
      (C : Codec) (raw b ip zone : String) (info : ClusterInfo) (info' : Option ClusterInfo)
      (x : Extracted)
      → ReadsBack C
      → info.fqdn ≡ "*." <> zone
      → rewrite_kubeconfig_server C raw (external_server_url cr (some info)) ≡ ok b
      → argo_config_from_kubeconfig C raw ≡ ok x
      → (y : Extracted) × (argo_config_from_kubeconfig C b ≡ ok y)
        × (build_server_url child ip y.server info'
            ≡ "https://"
              <> (("*." <> zone)
                  <> (":"
                      <> show (
                          if is_zero cr.spec.server_port
                          then default_vcluster_server_port
                          else cr.spec.server_port))))
  unfolding external_server_url
  child-server-wildcard C raw b ip zone info info' x laws e written extracted =
      let (y, here, url, _) = child-server C raw b ip (some info) info' x laws written extracted in
      let named : (info.fqdn == "") ≡ false =
        rw e (==-ne ("*." <> zone) "" (λ h. cons-ne-nil "*" "." (append-eq-nil_iff.0 h).0)) in
      (y, here, url ∙ rw (named, e) refl)
