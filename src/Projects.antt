-- ===== src/Projects.antt =====
-- service/project_service.go and service/namespace_service.go: a project, its namespace and what it gives
-- its users.
pub mod Namespaces
pub mod Reconcile
