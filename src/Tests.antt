-- ===== src/Tests.antt =====
-- Concrete objects and a small concrete world, and the theorems applied to them.
mod Fixture
mod Codec
mod Server
mod Metadata
mod Enrich
mod Reservation
mod Reconcile
mod History
mod Lifecycle
mod Requests
mod Kubeconfig
mod Trees
mod Pools
mod Vcluster
mod Installation
mod Balancer
mod Allocations
mod Startup
mod Books
