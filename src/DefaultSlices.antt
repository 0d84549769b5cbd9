-- ===== src/DefaultSlices.antt =====
-- service/default_slice_service.go: the default slice of a project, which holds the namespaces of its
-- clusters that are in no other slice. Additions, removals and the operations have a module each.
pub mod Additions
pub mod Removals
pub mod Operations
