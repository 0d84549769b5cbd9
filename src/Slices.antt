-- ===== src/Slices.antt =====
-- service/slice_config_service.go
pub mod Namespaces
pub mod Deletion
pub mod Reconcile
