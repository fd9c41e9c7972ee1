-- ===== src/Api.antt =====
-- The custom resources of `api/v1alpha1`, and the parts of Kubernetes' own objects that the
-- operator reads or writes.
pub mod Meta
pub mod Cluster
pub mod LoadBalancer
pub mod Allocation
pub mod Vcluster
