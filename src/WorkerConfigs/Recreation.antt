-- ===== src/WorkerConfigs/Recreation.antt =====
-- The branch of ReconcileWorkerSliceConfig (service/worker_slice_config_service.go) for a worker slice that
-- is being deleted: a slice that still has the cluster is touched, so that the worker slice is made again.
use kubeslice_controller.Common.{ℕ, String, true, false, Option, none, some, insert}
use kubeslice_controller.Go.Effect.{M, ◌>>=◌, ◌>>◌, pure, asks}
use kubeslice_controller.Go.Text.{itoa}
use kubeslice_controller.Resources.Meta.{label}
use kubeslice_controller.Resources.Slice.{SliceConfig}
use kubeslice_controller.Resources.Worker.{WorkerSliceConfig}
use kubeslice_controller.Platform.{Platform, get_resource_if_exist, update_resource}
use kubeslice_controller.Platform.Reporting.{notify, reported}
use kubeslice_controller.Util.Arrays.{contains_string}
use kubeslice_controller.Util.Reconciliation.{Result, Object, remove_worker_finalizers}

abbrev worker_slice_kind : String
worker_slice_kind = "worker_slice_config"

abbrev pub worker_slice_config_finalizer : String
worker_slice_config_finalizer = "worker.kubeslice.io/worker-slice-configuration-finalizer"

abbrev pub worker_slice_object : Object WorkerSliceConfig
worker_slice_object = record {
  metadata = λ worker. worker.metadata;
  with_finalizers = λ finalizers worker. record worker {
    metadata = record worker.metadata { finalizers = finalizers };
  };
}

-- The annotation of an update of a slice.
abbrev pub touched_slice : ℕ → SliceConfig → SliceConfig
touched_slice now slice = record slice {
  metadata = record slice.metadata {
    annotations = insert "updatedTimestamp" (itoa now) slice.metadata.annotations;
  };
}

module _ {W : Type 0} (platform : Platform W) (namespace : String) where
  unfoldable recreate_worker_slice : WorkerSliceConfig → SliceConfig → M W (Unit {0})
  recreate_worker_slice worker slice w =
      let v =
        notify platform worker_slice_kind
          (record {
            event = "EventWorkerSliceConfigDeletedForcefully";
            action = "deleted_forcefully";
          })
          worker.metadata.name w in
      reported platform worker_slice_kind
        (record { event = "EventWorkerSliceConfigRecreated"; action = "recreated" })
        (record { event = "EventWorkerSliceConfigRecreationFailed"; action = "recreation_failed" })
        worker.metadata.name
        (update_resource platform.slice_configs (touched_slice (platform.now v) slice) v)

  abbrev recreate_if_member : WorkerSliceConfig → SliceConfig → Option ℕ → M W (Unit {0})
  recreate_if_member worker slice (some t) = pure tt
  recreate_if_member worker slice none =
      elim (contains_string slice.spec.clusters (label worker.metadata "worker-cluster")) [
        | true ↦ recreate_worker_slice worker slice
        | false ↦ pure tt
      ]

  abbrev recreate_in_slice : WorkerSliceConfig → Option SliceConfig → M W (Unit {0})
  recreate_in_slice worker none = pure tt
  recreate_in_slice worker (some slice) =
      recreate_if_member worker slice slice.metadata.deletion_timestamp

  abbrev after_worker_finalizers : WorkerSliceConfig → Result → M W Result
  after_worker_finalizers worker result = elim result.requeue [
    | true ↦ pure result
    | false ↦
        asks (
          get_resource_if_exist platform.slice_configs
            (record { namespace = namespace; name = worker.spec.slice_name }))
        >>= recreate_in_slice worker
        >> pure result
  ]

  unfoldable pub reconcile_worker_slice_deleted : WorkerSliceConfig → M W Result
  unfolding recreate_worker_slice
  reconcile_worker_slice_deleted worker =
      remove_worker_finalizers platform platform.worker_slice_configs worker_slice_object
        worker_slice_config_finalizer worker
      >>= after_worker_finalizers worker
