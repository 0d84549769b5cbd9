-- ===== src/AccessControl.antt =====
-- service/access_control_service.go and the rules of service/kube_slice_resource_names.go: roles, service
-- accounts and role bindings of projects and clusters.
pub mod Rules
pub mod Roles
pub mod Accounts
pub mod Obsolete
pub mod Users
