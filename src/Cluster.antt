-- ===== src/Cluster.antt =====
-- The `ClusterbookCluster` reconciler (controller/reconciler.go, controller/readiness.go).
pub mod Server
pub mod Metadata
pub mod Reservation
pub mod Secrets
pub mod Reconcile
pub mod Lifecycle
