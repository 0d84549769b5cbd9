-- ===== src/Resources/Project.antt =====
-- apis/controller/v1alpha1/project_types.go, and the metadata of
-- apis/worker/v1alpha1/workerslicegwrecycler_types.go, of which the modelled functions use no more.
use kubeslice_controller.Common.{String, Bool, List}
use kubeslice_controller.Resources.Meta.{ObjectMeta}

pub record ServiceAccount : Type 0 where
  pub read_only : List String
  pub read_write : List String

pub record ProjectSpec : Type 0 where
  pub service_account : ServiceAccount
  pub default_slice_creation : Bool

-- `kind` is that of the type metadata, which a typed client may leave empty.
pub record Project : Type 0 where
  pub kind : String
  pub metadata : ObjectMeta
  pub spec : ProjectSpec

pub record WorkerSliceGwRecycler : Type 0 where
  pub metadata : ObjectMeta
