-- ===== src/Gateways.antt =====
-- service/worker_slice_gateway_service.go
pub mod Numbers
pub mod Addresses
pub mod Certs
pub mod Pairs
pub mod Cleanup
pub mod Creation
pub mod Nodes
pub mod Secrets
pub mod Reconcile
