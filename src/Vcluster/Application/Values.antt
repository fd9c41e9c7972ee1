-- ===== src/Vcluster/Application/Values.antt =====
-- The values of the vcluster's chart (controller/vcluster_reconciler.go).
use clusterbook_operator.Prelude.{
  String, ◌≡◌, ◌≢◌, refl, ◌∙◌, true, Option, none, some, List, [], ◌∷◌, arith, ◌==◌, ==-ne,
  Bool-cases, inl, inr,
}
use clusterbook_operator.Exec.{ok, and_then}
use clusterbook_operator.Exec.Inversion.{and_then-eq-ok}
use clusterbook_operator.Api.Vcluster.{Vcluster}
use clusterbook_operator.World.{Codec, Machinery}
use clusterbook_operator.World.Data.{ClusterInfo, Fields, text, array, cons, nil, nested, diverges}
use clusterbook_operator.World.Laws.{SetsFields}
use clusterbook_operator.Vcluster.Application.{
  chart_values, service_values, san_values, build_helm_values,
}

-- The paths that the operator writes.
abbrev pub type_path : List String
type_path = "controlPlane" ∷ "service" ∷ "spec" ∷ "type" ∷ []

abbrev pub ip_path : List String
ip_path = "controlPlane" ∷ "service" ∷ "spec" ∷ "loadBalancerIP" ∷ []

abbrev pub san_path : List String
san_path = "controlPlane" ∷ "proxy" ∷ "extraSANs" ∷ []

module _ (M : Machinery) (laws : SetsFields M) (values m : Fields) where
  service_values-written :
      (ip : String)
      → ip ≢ ""
      → service_values M ip values ≡ ok m
      → (nested type_path m ≡ some (text "LoadBalancer")) × (nested ip_path m ≡ some (text ip))
  unfolding service_values diverges
  service_values-written ip n h =
      let h' : and_then (M.set_nested_field values (text "LoadBalancer") type_path)
            (λ typed. M.set_nested_field typed (text ip) ip_path)
          ≡ ok m =
        rw (==-ne ip "" n) at h in
      let (typed, first, second) =
        and_then-eq-ok (M.set_nested_field values (text "LoadBalancer") type_path)
          (λ typed. M.set_nested_field typed (text ip) ip_path) h' in
      (
        laws.nested-set_nested_field_other typed m (text ip) ip_path type_path second refl
            ∙ laws.nested-set_nested_field values typed (text "LoadBalancer") type_path first,
        laws.nested-set_nested_field typed m (text ip) ip_path second,
      )

  service_values-other :
      (ip : String) (q : List String)
      → diverges q type_path ≡ true
      → diverges q ip_path ≡ true
      → service_values M ip values ≡ ok m
      → nested q m ≡ nested q values
  unfolding service_values diverges
  service_values-other ip q d e h = elim (Bool-cases (ip == "")) [
    | inl b ↦ ground arith
    | inr b ↦
        let (typed, first, second) =
          and_then-eq-ok (M.set_nested_field values (text "LoadBalancer") type_path)
            (λ typed. M.set_nested_field typed (text ip) ip_path) (rw b at h) in
        laws.nested-set_nested_field_other typed m (text ip) ip_path q second e
        ∙ laws.nested-set_nested_field_other values typed (text "LoadBalancer") type_path q first d
  ]

  san_values-other :
      (info : Option ClusterInfo) (q : List String)
      → diverges q san_path ≡ true
      → san_values M info values ≡ ok m
      → nested q m ≡ nested q values
  unfolding san_values diverges
  san_values-other none q d h = ground arith
  san_values-other (some info) q d h = elim (Bool-cases (info.fqdn == "")) [
    | inl b ↦ ground arith
    | inr b ↦
        laws.nested-set_nested_string_slice_other values m (info.fqdn ∷ []) san_path q (rw b at h) d
  ]

module _ (C : Codec) (M : Machinery) (laws : SetsFields M) (cr : Vcluster) (ip : String)
    (m : Fields) where
  build_helm_values-inv :
      (info : Option ClusterInfo)
      → build_helm_values C M cr ip info ≡ ok m
      → (values served : Fields) × (chart_values C cr.spec.chart_values ≡ ok values)
        × (service_values M ip values ≡ ok served)
        × (san_values M info served ≡ ok m)
  unfolding build_helm_values
  build_helm_values-inv info h =
      let (values, first, rest) =
        and_then-eq-ok (chart_values C cr.spec.chart_values)
          (λ values. and_then (service_values M ip values) (λ served. san_values M info served))
          h in
      let (served, second, third) =
        and_then-eq-ok (service_values M ip values) (λ served. san_values M info served) rest in
      (values, served, first, second, third)

  -- Where the setters of nested fields set what they are given and leave what lies elsewhere:
  -- if the chart's values are built for an IP and an FQDN that are not empty, they hold the
  -- Service type LoadBalancer, that IP, and that FQDN as the only extra SAN, whatever the
  -- user's chartValues say there.
  pub build_helm_values-operator :
      (info : ClusterInfo)
      → ip ≢ ""
      → info.fqdn ≢ ""
      → build_helm_values C M cr ip (some info) ≡ ok m
      → (nested type_path m ≡ some (text "LoadBalancer"))
        × (nested ip_path m ≡ some (text ip))
        × (nested san_path m ≡ some (array (cons (text info.fqdn) nil)))
  unfolding san_values diverges
  build_helm_values-operator info n f h =
      let (values, served, _, second, third) = build_helm_values-inv (some info) h in
      let (type, address) = service_values-written M laws values served ip n second in
      (
        san_values-other M laws served m (some info) type_path refl third ∙ type,
        san_values-other M laws served m (some info) ip_path refl third ∙ address,
        laws.nested-set_nested_string_slice served m (info.fqdn ∷ []) san_path
            (rw (==-ne info.fqdn "" f) at third),
      )

  -- Under the same condition: if the chart's values are built, the user's chartValues were
  -- decoded, and at every path that neither contains nor lies within one of those three, the
  -- result holds what they hold.
  pub build_helm_values-user :
      (info : Option ClusterInfo) (q : List String)
      → diverges q type_path ≡ true
      → diverges q ip_path ≡ true
      → diverges q san_path ≡ true
      → build_helm_values C M cr ip info ≡ ok m
      → (values : Fields) × (chart_values C cr.spec.chart_values ≡ ok values)
        × (nested q m ≡ nested q values)
  build_helm_values-user info q d e f h =
      let (values, served, first, second, third) = build_helm_values-inv info h in
      (
        values,
        first,
        san_values-other M laws served m info q f third
            ∙ service_values-other M laws values served ip q d e second,
      )
