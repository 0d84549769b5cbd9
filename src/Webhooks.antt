-- ===== src/Webhooks.antt =====
-- The other admission webhooks: service/service_export_config_webhook_validation.go,
-- service/slice_qos_config_webhook_validation.go, service/vpn_key_rotation_webhook_validation.go,
-- service/worker_slice_config_webhook_validation.go, service/worker_slice_gateway_webhook_validation.go,
-- service/project_webhook_validation.go and service/cluster_webhook_validation.go.
pub mod Clusters
pub mod Deletions
pub mod Exports
pub mod Projects
pub mod QosConfigs
pub mod Rotations
pub mod Workers
