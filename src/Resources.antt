-- ===== src/Resources.antt =====
-- The API objects of apis/controller/v1alpha1 and apis/worker/v1alpha1.
-- The types' Go structs become records with the fields that the modelled code reads or writes; the
-- other fields (TypeMeta, the statuses that only the workers fill, monitoring settings) are left out.
pub mod Meta
pub mod Slice
pub mod Cluster
pub mod Worker
pub mod Rotation
pub mod Project
pub mod Access
