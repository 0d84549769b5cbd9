-- ===== src/Webhooks/Workers/Derived.antt =====
-- The webhook of worker slices beside ReconcileWorkerSliceConfig (service/worker_slice_config_service.go).
use kubeslice_controller.Platform.{Platform}
