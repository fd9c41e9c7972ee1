-- ===== src/LoadBalancer.antt =====
-- The `ClusterbookLoadBalancer` reconciler (controller/loadbalancer_reconciler.go).
pub mod Service
pub mod Pool
pub mod Reconcile
pub mod Lifecycle
