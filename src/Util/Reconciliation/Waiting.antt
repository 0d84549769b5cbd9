-- ===== src/Util/Reconciliation/Waiting.antt =====
-- When the finalizers of a worker's object are kept (service/service_helper.go).
use kubeslice_controller.Common.{ℕ, ◌+◌, ◌<◌, String, ◌≡◌, ◌≢◌, true, not, [], some, filter, ◌==◌}
use kubeslice_controller.Platform.{Platform, Resource}
use kubeslice_controller.Util.Arrays.{contains_string}
use kubeslice_controller.Util.Reconciliation.{Object, worker_delete_requeue_seconds}

module _ {W A : Type 0} (platform : Platform W) (resource : Resource W A) (object : Object A) where
  -- The object waits for the owners of other finalizers.
  pub record IsWaiting (name : String) (a : A) (w : W) : Type 0 where
    pub worker_owns : contains_string (object.metadata a).finalizers name ≡ true
    pub others : filter (λ f. not (f == name)) (object.metadata a).finalizers ≢ []
    pub deleted_at : ℕ
    pub is_deleted : (object.metadata a).deletion_timestamp ≡ some deleted_at
    pub recent : platform.now w < deleted_at + worker_delete_requeue_seconds
