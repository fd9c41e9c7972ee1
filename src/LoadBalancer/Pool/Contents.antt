-- ===== src/LoadBalancer/Pool/Contents.antt =====
-- What a pool holds after its callback (controller/loadbalancer_reconciler.go).
use clusterbook_operator.Prelude.{
  String, ◌≡◌, refl, sym, ap, ◌∙◌, true, Option, none, some, List, [], ◌∷◌,
}
use clusterbook_operator.Exec.{Result, ok, and_then}
use clusterbook_operator.Exec.Inversion.{and_then-eq-ok, result_or}
use clusterbook_operator.Api.Meta.{ObjectMeta}
use clusterbook_operator.Api.LoadBalancer.{LoadBalancer, LabelSelector}
use clusterbook_operator.Prelude.Map.{merge}
use clusterbook_operator.World.{World}
use clusterbook_operator.World.Data.{
  load_balancer, Unstructured, Value, object, Fields, ClusterInfo, nested, diverges,
}
use clusterbook_operator.World.Laws.{SetsFields}
use clusterbook_operator.LoadBalancer.Pool.{
  label_selector_to_map, pool_blocks, pool_annotations, set_selector, render_pool,
}

abbrev pub blocks_path : List String
blocks_path = "spec" ∷ "blocks" ∷ []

abbrev pub selector_path : List String
selector_path = "spec" ∷ "serviceSelector" ∷ []

-- The selector that the CR gives, and what was there if it gives none.
abbrev pub selector_or : Option LabelSelector → Option Value → Option Value
selector_or none before = before
selector_or (some sel) before = some (object (label_selector_to_map sel))

module _ (W : World) (laws : SetsFields W.machinery) where
  set_selector-selector :
      (selector : Option LabelSelector) (m m' : Fields)
      → set_selector W selector m ≡ ok m'
      → nested selector_path m' ≡ selector_or selector (nested selector_path m)
  unfolding set_selector
  set_selector-selector none m m' h = ap (nested selector_path) (sym (ap (result_or m) h))
  set_selector-selector (some sel) m m' h =
      laws.nested-set_nested_field m m' (object (label_selector_to_map sel)) selector_path h

  set_selector-other :
      (selector : Option LabelSelector) (m m' : Fields) (q : List String)
      → diverges q selector_path ≡ true
      → set_selector W selector m ≡ ok m'
      → nested q m' ≡ nested q m
  unfolding set_selector
  set_selector-other none m m' q d h = ap (nested q) (sym (ap (result_or m) h))
  set_selector-other (some sel) m m' q d h =
      laws.nested-set_nested_field_other m m' (object (label_selector_to_map sel)) selector_path q h
        d

  -- Where the setters of nested fields set what they are given and leave what lies elsewhere:
  -- if the pool's callback succeeds, the pool's blocks are the one block of the IP, and its
  -- service selector is the CR's; a CR without one leaves the selector that the pool had.
  pub render_pool-selector :
      (cr : LoadBalancer) (selector : Option LabelSelector) (ip : String)
      (info : Option ClusterInfo) (pool pool' : Unstructured)
      → render_pool W cr selector ip info pool ≡ ok pool'
      → (nested blocks_path pool'.tree ≡ some (pool_blocks ip))
        × (nested selector_path pool'.tree ≡ selector_or selector (nested selector_path pool.tree))
  unfolding render_pool diverges
  render_pool-selector cr selector ip info pool pool' h =
      let own : Result ObjectMeta =
        W.machinery.set_controller_reference load_balancer cr (record (pool.meta) {
          annotations = merge pool.meta.annotations (pool_annotations ip info);
        }) in
      let (blocks, first, rest) =
        and_then-eq-ok (W.machinery.set_nested_field pool.tree (pool_blocks ip) blocks_path)
          (λ blocks.
            and_then (set_selector W selector blocks)
              λ tree. and_then own λ m. ok (record { meta = m; tree = tree }))
          h in
      let (tree, second, rest') =
        and_then-eq-ok (set_selector W selector blocks)
          (λ tree. and_then own λ m. ok (record { meta = m; tree = tree })) rest in
      let (m, _, end) = and_then-eq-ok own (λ m. ok (record { meta = m; tree = tree })) rest' in
      let same : tree ≡ pool'.tree =
        ap (λ (r : Result Unstructured). (result_or pool' r).tree) end in
      (
        ap (nested blocks_path) (sym same)
            ∙ set_selector-other selector blocks tree blocks_path refl second
            ∙ laws.nested-set_nested_field pool.tree blocks (pool_blocks ip) blocks_path first,
        ap (nested selector_path) (sym same)
            ∙ set_selector-selector selector blocks tree second
            ∙ ap (selector_or selector) (
                laws.nested-set_nested_field_other pool.tree blocks (pool_blocks ip) blocks_path
                  selector_path first refl),
      )
