-- ===== src/Util.antt =====
-- util/common.go and util/reconciliation_utility.go
pub mod Arrays
pub mod Ipam
pub mod Subnets
pub mod Projects
pub mod Reconciliation
pub mod OwnerLabels
pub mod Labels
