-- ===== src/Tests/Pools.antt =====
-- A pool that was written for a CR with a selector, and is written again for one without.
use clusterbook_operator.Prelude.{String, ◌≡◌, refl, true, some, none, elem}
use clusterbook_operator.Exec.{Result, ok, err, message, Exec}
use clusterbook_operator.Shared.{cluster_scoped}
use clusterbook_operator.Client.{Client, release_ips, exchange, ok_or_no_content}
use clusterbook_operator.Api.LoadBalancer.{LoadBalancer, CiliumPoolTarget}
use clusterbook_operator.LoadBalancer.Reconcile.{
  Published, publish, final_status, status_with_info, finalize, clean_up, withdraw, release,
}
use clusterbook_operator.LoadBalancer.Reconcile.Release.{without_finalizer}
use clusterbook_operator.LoadBalancer.Reconcile.PoolDeletion.{finalize-pool}
use clusterbook_operator.Api.Meta.{fresh_meta, ObjectName}
use clusterbook_operator.World.{World}
use clusterbook_operator.World.Data.{
  Kind, Obj, ip_pool, load_balancer, Unstructured, text, object, Fields, end, field, nested,
  get_field,
}
use clusterbook_operator.Exec.Inversion.{result_or}
use clusterbook_operator.Vcluster.Application.{put_field}
use clusterbook_operator.LoadBalancer.Pool.{
  pool_blocks, render_pool, set_selector, upsert_cilium_pool, pool_written,
}
use clusterbook_operator.LoadBalancer.Pool.Contents.{
  blocks_path, selector_path, render_pool-selector,
}
use clusterbook_operator.Tests.Fixture.{balancer}
use clusterbook_operator.Tests.Server.{world, store, Store}
use clusterbook_operator.Tests.Trees.{machinery, machinery-SetsFields, set_at}

abbrev setting : World
setting = record (world true) { machinery = machinery }

abbrev web : Fields
web = field "matchLabels" (object (field "app" (text "web") end)) end

abbrev pool : Unstructured
pool = record {
  meta = fresh_meta (record { namespace = ""; name = "pool" });
  tree = field "spec" (object (field "serviceSelector" (object web) end)) end;
}

abbrev pool_after : Unstructured
pool_after = result_or pool (render_pool setting balancer none "10.0.0.7" none pool)

render_pool-selector_example :
    (nested blocks_path pool_after.tree ≡ some (pool_blocks "10.0.0.7"))
    × (nested selector_path pool_after.tree ≡ some (object web))
unfolding render_pool set_selector set_at put_field get_field nested
render_pool-selector_example =
    render_pool-selector setting machinery-SetsFields balancer none "10.0.0.7" none pool pool_after
      refl

-- The world, with pools.
abbrev create_pool : (k : Kind) → ObjectName → (Obj k → Result (Obj k)) → Exec Store (Obj k)
create_pool ip_pool n f s = (f (record { meta = fresh_meta n; tree = end }), s)
create_pool k n f s = (err (message "unsupported"), s)

abbrev pools : World
pools = record setting { create_or_update = create_pool }

abbrev target : CiliumPoolTarget
target = record { namespace = ""; pool_name = ""; service_selector = none }

abbrev pooled : LoadBalancer
pooled = record balancer { spec = record balancer.spec { cilium_pool = some target } }

abbrev clusterbook : Client
clusterbook = record { base_url = "https://clusterbook"; tls = none }

abbrev published : Published
published = record { cr = pooled; pool_name = "ingress-pool"; target_service_ref = none }

abbrev settled : LoadBalancer
settled = final_status pools published "10.0.0.7" none

abbrev left : Result (Unit {0}) × Store
left = finalize pools settled clusterbook store

finalize-pool_example :
    (name : String) × (v w : Store) × (o : LoadBalancer) × (upsert_cilium_pool pools pooled none
        name "10.0.0.7" none store
      ≡ (ok tt, store))
    × ((pools.delete ip_pool (cluster_scoped name) store).1 ≡ v)
    × (release pools settled clusterbook v ≡ (ok tt, w))
    × (pools.update load_balancer (without_finalizer pools settled) w ≡ (ok o, left.1))
unfolding elem publish upsert_cilium_pool pool_written render_pool set_selector set_at put_field
    get_field final_status status_with_info finalize clean_up withdraw release release_ips exchange
    ok_or_no_content
finalize-pool_example =
    finalize-pool pools pooled target published clusterbook "10.0.0.7" none store store store left.1
      refl refl refl refl
