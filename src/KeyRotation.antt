-- ===== src/KeyRotation.antt =====
-- service/vpn_key_rotation_service.go: the rotation of the certificates of a slice's gateways.
pub mod Jobs
pub mod Services
pub mod Certificates
pub mod Reconcile
pub mod Counting
pub mod Outer
