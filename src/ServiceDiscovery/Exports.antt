-- ===== src/ServiceDiscovery/Exports.antt =====
-- service/service_export_config_service.go
pub mod Kept
use kubeslice_controller.Common.{
  ℕ, String, Bool, true, false, not, ◌&&◌, ◌||◌, List, [], ◌∷◌, Option, none, some, Map, insert,
  ◌==◌,
}
use kubeslice_controller.Go.{Outcome, ok, err, panic}
use kubeslice_controller.Go.Effect.{M, ◌>>=◌, ◌>>◌, pure, asks, each}
use kubeslice_controller.Go.Text.{◌<>◌}
use kubeslice_controller.Resources.Meta.{Key, label}
use kubeslice_controller.Resources.Slice.{SliceConfig, ServiceExportConfig}
use kubeslice_controller.Resources.Worker.{WorkerServiceImport}
use kubeslice_controller.Platform.{Platform, get_resource_if_exist, list_resources, update_resource}
use kubeslice_controller.Platform.Reporting.{Notice, reported, delete_reported, where_true}
use kubeslice_controller.Util.Arrays.{contains_string}
use kubeslice_controller.Util.OwnerLabels.{get_owner_label}
use kubeslice_controller.Util.Reconciliation.{Result, done, Object, add_finalizer, remove_finalizer}
use kubeslice_controller.ServiceDiscovery.Imports.{
  ServiceName, list_worker_service_import, delete_worker_service_import_by_label,
  create_minimal_worker_service_import, lookup_service_export_for_service, force_reconciliation,
}

abbrev export_kind : String
export_kind = "service_export_config"

abbrev export_deleted : Notice
export_deleted = record { event = "EventServiceExportConfigDeleted"; action = "deleted" }

abbrev export_deletion_failed : Notice
export_deletion_failed = record {
  event = "EventServiceExportConfigDeletionFailed";
  action = "deletion_failed";
}

abbrev service_export_config_finalizer : String
service_export_config_finalizer = "controller.kubeslice.io/service-export-finalizer"

abbrev export_object : Object ServiceExportConfig
export_object = record {
  metadata = λ export. export.metadata;
  with_finalizers = λ finalizers export. record export {
    metadata = record export.metadata { finalizers = finalizers };
  };
}

-- getOwnerLabelsForServiceExport, of this service and of that of slices
unfoldable pub get_owner_labels_for_service_export : ServiceExportConfig → Map String
get_owner_labels_for_service_export export = get_owner_label (
    "ServiceExportConfig-" <> export.spec.service_name <> "-" <> export.spec.service_namespace
    <> "-" <> export.spec.slice_name)

abbrev pub service_of : ServiceExportConfig → ServiceName
service_of export = record {
  service_name = export.spec.service_name;
  service_namespace = export.spec.service_namespace;
  slice_name = export.spec.slice_name;
  aliases = export.spec.aliases;
}

-- Whether the labels say what the export does.
abbrev is_labelled : ServiceExportConfig → Bool
is_labelled export =
    label export.metadata "original-slice-name" == export.spec.slice_name
    && (label export.metadata "worker-cluster" == export.spec.source_cluster
        && (label export.metadata "service-name" == export.spec.service_name
            && label export.metadata "service-namespace" == export.spec.service_namespace))

abbrev labelled : ServiceExportConfig → ServiceExportConfig
labelled export = record export {
  metadata = record export.metadata {
    labels = insert "service-namespace" export.spec.service_namespace (
        insert "service-name" export.spec.service_name (
          insert "worker-cluster" export.spec.source_cluster
            (insert "original-slice-name" export.spec.slice_name export.metadata.labels)));
  };
}

-- Whether no other cluster exports the service: no export is left, or one of the same cluster.
abbrev pub is_last : ServiceExportConfig → List ServiceExportConfig → Bool
is_last export [] = true
is_last export (other ∷ []) = other.spec.source_cluster == export.spec.source_cluster
is_last export (other ∷ another ∷ rest) = false

module _ {W : Type 0} (platform : Platform W) where
  -- ListServiceExportConfigs
  unfoldable list_service_export_configs : String → W → Outcome (List ServiceExportConfig)
  list_service_export_configs namespace w =
      list_resources platform.service_export_configs [] (some namespace) w

  abbrev delete_export : ServiceExportConfig → M W (Unit {0})
  delete_export =
      delete_reported platform export_kind platform.service_export_configs (λ e. e.metadata)
        export_deleted export_deletion_failed

  -- DeleteServiceExportConfigs
  unfoldable pub delete_service_export_configs : String → M W (Unit {0})
  unfolding list_service_export_configs
  delete_service_export_configs namespace = do
    exports ← asks (list_service_export_configs namespace)
    each exports delete_export

  -- DeleteServiceExportConfigByParticipatingSliceConfig
  unfoldable delete_service_export_config_by_participating_slice_config :
      (slice_name namespace : String) → M W (Unit {0})
  unfolding list_service_export_configs
  delete_service_export_config_by_participating_slice_config slice_name namespace = do
    exports ← asks (list_service_export_configs namespace)
    each exports
        (where_true (λ e. label e.metadata "original-slice-name" == slice_name) delete_export)

  -- The imports to update; an error of the list call is logged, and leaves none.
  abbrev pub or_nothing : Outcome (List WorkerServiceImport) → Outcome (List WorkerServiceImport)
  or_nothing (ok imported) = ok imported
  or_nothing (err e) = ok []
  or_nothing panic = panic

  -- An error is logged.
  abbrev pub ignored : Outcome (Unit {0}) × W → Outcome (Unit {0}) × W
  ignored (ok u, w) = (ok tt, w)
  ignored (err e, w) = (ok tt, w)
  ignored (panic, w) = (panic, w)

  abbrev pub release : ServiceExportConfig → String → Bool → M W (Unit {0})
  release export namespace true =
      delete_worker_service_import_by_label platform (get_owner_labels_for_service_export export)
        namespace
  release export namespace false =
      asks (λ w. or_nothing (
        list_worker_service_import platform (get_owner_labels_for_service_export export)
          export.metadata.namespace w))
      >>= λ imported w. ignored (force_reconciliation platform imported w)

  abbrev release_unless_exported :
      ServiceExportConfig → String → List ServiceExportConfig → M W (Unit {0})
  release_unless_exported export namespace others = release export namespace (is_last export others)

  -- cleanUpServiceExportConfigResources
  unfoldable pub clean_up_service_export_config_resources :
      ServiceExportConfig → String → M W (Unit {0})
  clean_up_service_export_config_resources export namespace =
      asks (
        lookup_service_export_for_service platform export.metadata.namespace
          export.spec.service_name export.spec.service_namespace export.spec.slice_name)
      >>= release_unless_exported export namespace

  module _ (namespace : String) where
    abbrev label_export : ServiceExportConfig → M W ServiceExportConfig
    label_export export = elim (is_labelled export) [
      | true ↦ pure export
      | false ↦
          update_resource platform.service_export_configs (labelled export)
          >> pure (labelled export)
    ]

    abbrev import_in : ServiceExportConfig → Option SliceConfig → M W Result
    import_in export none = pure done
    import_in export (some slice) = do
      named ← label_export export
      create_minimal_worker_service_import platform (service_of named) slice.spec.clusters namespace
          (get_owner_labels_for_service_export named)
      pure done

    abbrev ensure_export_finalizer : ServiceExportConfig → M W (Result × ServiceExportConfig)
    ensure_export_finalizer export =
        elim (contains_string export.metadata.finalizers service_export_config_finalizer) [
          | true ↦ pure (done, export)
          | false ↦
              add_finalizer platform platform.service_export_configs export_object
                service_export_config_finalizer export
        ]

    -- An export that is not being deleted.
    unfoldable reconcile_export_present : ServiceExportConfig → M W Result
    reconcile_export_present export = do
      owned ← ensure_export_finalizer export
      slice ← asks (
          get_resource_if_exist platform.slice_configs
            (record { namespace = namespace; name = owned.1.spec.slice_name }))
      import_in owned.1 slice

    -- An export that is being deleted; the end of it is reported.
    unfoldable reconcile_export_deleted : ServiceExportConfig → M W Result
    unfolding clean_up_service_export_config_resources
    reconcile_export_deleted export = do
      clean_up_service_export_config_resources export namespace
      (λ w.
          reported platform export_kind export_deleted export_deletion_failed export.metadata.name (
            (remove_finalizer platform platform.service_export_configs export_object
                  service_export_config_finalizer export
                >> pure tt)
              w))
      pure done

    abbrev reconcile_export : Option ServiceExportConfig → M W Result
    reconcile_export none = pure done
    reconcile_export (some export) = elim export.metadata.deletion_timestamp [
      | none ↦ reconcile_export_present export
      | some t ↦ reconcile_export_deleted export
    ]

    -- ReconcileServiceExportConfig
    unfoldable reconcile_service_export_config : String → M W Result
    unfolding reconcile_export_present reconcile_export_deleted
    reconcile_service_export_config name =
        asks (
          get_resource_if_exist platform.service_export_configs
            (record { namespace = namespace; name = name }))
        >>= reconcile_export
