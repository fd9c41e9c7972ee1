-- ===== src/Allocation.antt =====
-- The `ClusterbookAllocation` reconciler (controller/allocation_reconciler.go).
pub mod Sinks
pub mod Reconcile
pub mod Lifecycle
pub mod Release
pub mod Written
