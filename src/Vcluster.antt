-- ===== src/Vcluster.antt =====
-- The `Vcluster` reconciler (controller/vcluster_reconciler.go).
pub mod Target
pub mod Application
pub mod Kubeconfig
pub mod Child
pub mod Reconcile
pub mod Lifecycle
pub mod Finished
pub mod Run
