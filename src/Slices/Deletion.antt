-- ===== src/Slices/Deletion.antt =====
-- Deletion of slices and of what they own (service/slice_config_service.go,
-- service/worker_slice_gateway_recycler_service.go).
use kubeslice_controller.Common.{String, List, [], ◌∷◌, some, Map}
use kubeslice_controller.Go.{Outcome}
use kubeslice_controller.Go.Effect.{M, ◌>>=◌, ◌>>◌, asks, each}
use kubeslice_controller.Go.Text.{◌<>◌}
use kubeslice_controller.Resources.Slice.{SliceConfig}
use kubeslice_controller.Resources.Project.{WorkerSliceGwRecycler}
use kubeslice_controller.Platform.{Platform, list_resources, delete_resource}
use kubeslice_controller.Platform.Reporting.{Notice, delete_reported}
use kubeslice_controller.Util.OwnerLabels.{get_owner_label}
use kubeslice_controller.WorkerConfigs.Cleanup.{delete_worker_slice_config_by_label}
use kubeslice_controller.Gateways.Cleanup.{delete_worker_slice_gateways_by_label}

abbrev pub slice_kind : String
slice_kind = "slice_config"

abbrev pub slice_deleted : Notice
slice_deleted = record { event = "EventSliceConfigDeleted"; action = "deleted" }

abbrev pub slice_deletion_failed : Notice
slice_deletion_failed = record {
  event = "EventSliceConfigDeletionFailed";
  action = "deletion_failed";
}

-- The labels of what a slice owns.
abbrev pub ownership_label : SliceConfig → Map String
ownership_label slice = get_owner_label ("SliceConfig-" <> slice.metadata.name)

module _ {W : Type 0} (platform : Platform W) where
  -- ListWorkerSliceGatewayRecyclers
  unfoldable list_worker_slice_gateway_recyclers :
      Map String → String → W → Outcome (List WorkerSliceGwRecycler)
  list_worker_slice_gateway_recyclers owner_label namespace w =
      list_resources platform.worker_slice_gw_recyclers owner_label (some namespace) w

  -- DeleteWorkerSliceGatewayRecyclersByLabel
  unfoldable delete_worker_slice_gateway_recyclers_by_label : Map String → String → M W (Unit {0})
  unfolding list_worker_slice_gateway_recyclers
  delete_worker_slice_gateway_recyclers_by_label label namespace = do
    recyclers ← asks (list_worker_slice_gateway_recyclers label namespace)
    each recyclers (delete_resource platform.worker_slice_gw_recyclers)

  -- cleanUpSliceConfigResources
  unfoldable pub clean_up_slice_config_resources : SliceConfig → String → M W (Unit {0})
  unfolding delete_worker_slice_gateway_recyclers_by_label
  clean_up_slice_config_resources slice namespace = do
    delete_worker_slice_gateways_by_label platform (ownership_label slice) namespace
    delete_worker_slice_config_by_label platform (ownership_label slice) namespace
    delete_worker_slice_gateway_recyclers_by_label (("slice_name", slice.metadata.name) ∷ [])
        namespace

  -- DeleteSliceConfigs
  unfoldable pub delete_slice_configs : String → M W (Unit {0})
  delete_slice_configs namespace = do
    slices ← asks (list_resources platform.slice_configs [] (some namespace))
    each slices (
        delete_reported platform slice_kind platform.slice_configs (λ s. s.metadata) slice_deleted
          slice_deletion_failed)
