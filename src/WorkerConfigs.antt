-- ===== src/WorkerConfigs.antt =====
-- service/worker_slice_config_service.go
pub mod Recreation
pub mod Derivation
pub mod Octets
pub mod Cleanup
pub mod Minimal
pub mod Labels
