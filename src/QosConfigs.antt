-- ===== src/QosConfigs.antt =====
-- service/slice_qos_config_service.go: a change of a QoS profile reaches the worker slices that use it.
use kubeslice_controller.Common.{String, Bool, true, false, [], ◌∷◌, Option, none, some}
use kubeslice_controller.Go.{Outcome, ok, err, panic}
use kubeslice_controller.Go.Effect.{M, ◌>>=◌, ◌>>◌, pure, asks, each}
use kubeslice_controller.Resources.Meta.{Namespace}
use kubeslice_controller.Resources.Slice.{SliceQosConfig}
use kubeslice_controller.Resources.Worker.{WorkerSliceConfig}
use kubeslice_controller.Platform.{
  Platform, get_resource_if_exist, list_resources, update_resource, delete_resource,
}
use kubeslice_controller.Platform.Reporting.{reported}
use kubeslice_controller.Util.Arrays.{contains_string}
use kubeslice_controller.Util.Projects.{check_for_project_namespace}
use kubeslice_controller.Util.Reconciliation.{Result, done, Object, add_finalizer, remove_finalizer}
use kubeslice_controller.WorkerConfigs.Cleanup.{list_worker_slice_configs}
use kubeslice_controller.WorkerConfigs.Minimal.{touched}

abbrev qos_kind : String
qos_kind = "slice_qos_config"

abbrev slice_qos_config_finalizer : String
slice_qos_config_finalizer = "controller.kubeslice.io/slice-qos-config-finalizer"

abbrev qos_object : Object SliceQosConfig
qos_object = record {
  metadata = λ config. config.metadata;
  with_finalizers = λ finalizers config. record config {
    metadata = record config.metadata { finalizers = finalizers };
  };
}

module _ {W : Type 0} (platform : Platform W) where
  -- The event of a deletion, and its counter, which is raised for the event of slices.
  abbrev report_deletion : (recorded counted action name : String) → W → W
  report_deletion recorded counted action name w =
      platform.record_metric
        (record { action = action; event = counted; object_name = name; object_kind = qos_kind })
        (platform.record_event recorded name w)

  abbrev after_qos_deletion : String → Outcome (Unit {0}) × W → Outcome (Unit {0}) × W
  after_qos_deletion name (ok u, w) = (
    ok tt,
    report_deletion "EventSliceQoSConfigDeleted" "EventSliceConfigDeleted" "deleted" name w,
  )
  after_qos_deletion name (err e, w) = (
    err e,
    report_deletion "EventSliceQoSConfigDeletionFailed" "EventSliceConfigDeletionFailed"
        "deletion_failed" name w,
  )
  after_qos_deletion name (panic, w) = (panic, w)

  abbrev delete_qos_config : SliceQosConfig → M W (Unit {0})
  delete_qos_config config w =
      after_qos_deletion config.metadata.name (delete_resource platform.slice_qos_configs config w)

  -- DeleteSliceQoSConfig
  unfoldable pub delete_slice_qos_config : String → M W (Unit {0})
  delete_slice_qos_config namespace = do
    configs ← asks (list_resources platform.slice_qos_configs [] (some namespace))
    each configs delete_qos_config

  abbrev touch_worker_slice : WorkerSliceConfig → M W (Unit {0})
  touch_worker_slice worker w =
      update_resource platform.worker_slice_configs (touched (platform.now w) worker) w

  -- updateWorkerSliceConfigs
  unfoldable update_worker_slice_configs : (namespace name : String) → M W (Unit {0})
  update_worker_slice_configs namespace name = do
    workers ←
        asks (list_worker_slice_configs platform (("standard-qos-profile", name) ∷ []) namespace)
    each workers touch_worker_slice

  module _ (namespace name : String) where
    abbrev ensure_qos_finalizer : SliceQosConfig → M W (Result × SliceQosConfig)
    ensure_qos_finalizer config =
        elim (contains_string config.metadata.finalizers slice_qos_config_finalizer) [
          | true ↦ pure (done, config)
          | false ↦
              add_finalizer platform platform.slice_qos_configs qos_object
                slice_qos_config_finalizer config
        ]

    abbrev update_if : Bool → M W Result
    update_if true = update_worker_slice_configs namespace name >> pure done
    update_if false = pure done

    abbrev update_in_project : Option Namespace → M W Result
    update_in_project none = pure done
    update_in_project (some found) = update_if (check_for_project_namespace found)

    unfoldable reconcile_qos_config_present : SliceQosConfig → M W Result
    unfolding update_worker_slice_configs
    reconcile_qos_config_present config = do
      ensure_qos_finalizer config
      found ←
          asks (
            get_resource_if_exist platform.namespaces (record { namespace = ""; name = namespace }))
      update_in_project found

    unfoldable reconcile_qos_config_deleted : SliceQosConfig → M W Result
    reconcile_qos_config_deleted config =
        (λ w.
          reported platform qos_kind
            (record { event = "EventSliceQoSConfigDeleted"; action = "deleted" })
            (record { event = "EventSliceQoSConfigDeletionFailed"; action = "deletion_failed" })
            config.metadata.name
            ((remove_finalizer platform platform.slice_qos_configs qos_object
                  slice_qos_config_finalizer config
                >> pure tt)
              w))
        >> pure done

    abbrev reconcile_qos_config : Option SliceQosConfig → M W Result
    reconcile_qos_config none = pure done
    reconcile_qos_config (some config) = elim config.metadata.deletion_timestamp [
      | none ↦ reconcile_qos_config_present config
      | some t ↦ reconcile_qos_config_deleted config
    ]

    -- ReconcileSliceQoSConfig
    unfoldable reconcile_slice_qos_config : M W Result
    unfolding reconcile_qos_config_present reconcile_qos_config_deleted
    reconcile_slice_qos_config =
        asks (
          get_resource_if_exist platform.slice_qos_configs
            (record { namespace = namespace; name = name }))
        >>= reconcile_qos_config
