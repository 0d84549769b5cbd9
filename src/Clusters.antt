-- ===== src/Clusters.antt =====
-- service/cluster_service.go: the registration of clusters, and how a cluster leaves a project.
pub mod Deregistration
pub mod Registration
pub mod Reconcile
