-- ===== src/ServiceDiscovery.antt =====
-- Services that the clusters of a slice export to one another: service/worker_service_import_service.go and
-- service/service_export_config_service.go.
pub mod Imports
pub mod Copy
pub mod Exports
