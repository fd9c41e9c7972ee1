-- ===== src/LoadBalancer/Pool.antt =====
-- `ciliumPool` mode: the `CiliumLoadBalancerIPPool` of the reserved IP
-- (controller/loadbalancer_reconciler.go).
pub mod Contents
use clusterbook_operator.Prelude.{String, ◌<>◌, List, [], ◌∷◌, Option, none, some, if◌then◌else◌}
use clusterbook_operator.Prelude.Map.{Map, insert, merge}
use clusterbook_operator.Exec.{
  Result, ok, err, is_already_exists, Exec, pure, fail, attempt, and_then, ◌>>=◌,
}
use clusterbook_operator.Api.LoadBalancer.{LoadBalancer, LabelSelector, SelectorRequirement}
use clusterbook_operator.World.{World}
use clusterbook_operator.World.Data.{
  ip_pool, load_balancer, Unstructured, Value, text, array, object, Items, nil, cons, Fields, end,
  field, ClusterInfo,
}
use clusterbook_operator.Shared.{cluster_scoped}
use clusterbook_operator.Cluster.Metadata.{annotation_ip, info_annotations}

-- `for k, v := range sel.MatchLabels { m[k] = v }`
unfoldable pub label_fields : Map String → Fields
label_fields [] = end
label_fields ((k, v) ∷ m) = field k (text v) (label_fields m)

unfoldable pub text_items : List String → Items
text_items [] = nil
text_items (v ∷ vs) = cons (text v) (text_items vs)

-- One entry of `matchExpressions`.
unfoldable pub requirement : SelectorRequirement → Value
requirement e = object (
    field "key" (text e.key)
      (field "operator" (text e.operator) (field "values" (array (text_items e.values)) end)))

unfoldable pub requirements : List SelectorRequirement → Items
requirements [] = nil
requirements (e ∷ es) = cons (requirement e) (requirements es)

-- `if len(sel.MatchExpressions) > 0 { … }`
unfoldable pub expression_fields : List SelectorRequirement → Fields
expression_fields [] = end
expression_fields (e ∷ es) = field "matchExpressions" (array (requirements (e ∷ es))) end

-- `labelSelectorToMap`
unfoldable pub label_selector_to_map : LabelSelector → Fields
label_selector_to_map sel = elim sel.match_labels [
  | [] ↦ expression_fields sel.match_expressions
  | x ∷ xs ↦
      field "matchLabels" (object (label_fields (x ∷ xs))) (expression_fields sel.match_expressions)
]

-- `[]interface{}{map[string]interface{}{"cidr": ip + "/32"}}`
unfoldable pub pool_blocks : String → Value
pool_blocks ip = array (cons (object (field "cidr" (text (ip <> "/32")) end)) nil)

-- The annotations of the pool.
unfoldable pub pool_annotations : String → Option ClusterInfo → Map String
pool_annotations ip info = info_annotations info (insert annotation_ip ip [])

module _ (W : World) where
  -- The selector is written only where the CR has one.
  unfoldable pub set_selector : Option LabelSelector → Fields → Result Fields
  set_selector none tree = ok tree
  set_selector (some sel) tree =
      W.machinery.set_nested_field tree (object (label_selector_to_map sel))
        ("spec" ∷ "serviceSelector" ∷ [])

  -- The callback of `CreateOrUpdate`.
  unfoldable pub render_pool :
      LoadBalancer
      → Option LabelSelector
      → String
      → Option ClusterInfo
      → Unstructured
      → Result Unstructured
  render_pool cr selector ip info pool =
      and_then (W.machinery.set_nested_field pool.tree (pool_blocks ip) ("spec" ∷ "blocks" ∷ []))
        λ blocks. and_then (set_selector selector blocks) λ tree.
          and_then
            (W.machinery.set_controller_reference load_balancer cr (record (pool.meta) {
              annotations = merge pool.meta.annotations (pool_annotations ip info);
            }))
            λ m. ok (record { meta = m; tree = tree })

  unfoldable pub pool_written : Result Unstructured → Exec W.State (Unit {0})
  pool_written (ok pool) = pure tt
  pool_written (err e) = if is_already_exists e then pure tt else fail e

  -- `upsertCiliumPool`
  unfoldable pub upsert_cilium_pool :
      LoadBalancer
      → Option LabelSelector
      → String
      → String
      → Option ClusterInfo
      → Exec W.State (Unit {0})
  upsert_cilium_pool cr selector pool_name ip info = do
    written ←
        attempt
          (W.create_or_update ip_pool (cluster_scoped pool_name) (render_pool cr selector ip info))
    pool_written written
