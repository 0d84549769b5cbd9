-- ===== src/SliceWebhook.antt =====
-- service/slice_config_webhook_validation.go
pub mod Network
pub mod Isolation
pub mod Clusters
pub mod Updates
pub mod Rotation
pub mod Handlers
pub mod ServiceTypes
pub mod ExternalGateways
pub mod Admission
pub mod Frozen
pub mod History
