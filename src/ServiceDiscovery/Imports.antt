-- ===== src/ServiceDiscovery/Imports.antt =====
-- The imports of a service (service/worker_service_import_service.go).
use kubeslice_controller.Common.{
  ℕ, String, Bool, true, false, not, List, [], ◌∷◌, Option, none, some, Map, insert, contains,
  filter,
}
use kubeslice_controller.Go.{Outcome, ok, err, panic}
use kubeslice_controller.Go.Effect.{M, ◌>>=◌, ◌>>◌, pure, asks, each}
use kubeslice_controller.Go.Text.{◌<>◌, itoa}
use kubeslice_controller.Resources.Meta.{label, named}
use kubeslice_controller.Resources.Slice.{ServiceExportConfig}
use kubeslice_controller.Resources.Worker.{WorkerServiceImport}
use kubeslice_controller.Platform.{
  Platform, get_resource_if_exist, list_resources, create_resource, update_resource,
}
use kubeslice_controller.Platform.Reporting.{tolerated, delete_reported, where_true}
use kubeslice_controller.WorkerConfigs.Minimal.{with_labels}

abbrev pub import_kind : String
import_kind = "worker_service_import"

-- What the functions are given of a service.
pub record ServiceName : Type 0 where
  pub service_name : String
  pub service_namespace : String
  pub slice_name : String
  pub aliases : List String

-- The new import for a cluster.
abbrev new_import :
    ServiceName → (namespace : String) → Map String → (cluster : String) → WorkerServiceImport
new_import service namespace labels cluster = record {
  metadata =
      named
        (service.service_name <> "-" <> service.service_namespace <> "-" <> service.slice_name
          <> "-" <> cluster)
        namespace labels;
  spec = record {
    service_name = service.service_name;
    service_namespace = service.service_namespace;
    source_clusters = [];
    slice_name = service.slice_name;
    service_discovery_endpoints = [];
    service_discovery_ports = [];
    aliases = service.aliases;
  };
}

abbrev pub touched_import : ℕ → WorkerServiceImport → WorkerServiceImport
touched_import now imported = record imported {
  metadata = record imported.metadata {
    annotations = insert "updatedTimestamp" (itoa now) imported.metadata.annotations;
  };
}

abbrev is_present : ServiceExportConfig → Bool
is_present export = elim export.metadata.deletion_timestamp [ none ↦ true | some t ↦ false ]

module _ {W : Type 0} (platform : Platform W) where
  -- ListWorkerServiceImport
  unfoldable pub list_worker_service_import :
      Map String → String → W → Outcome (List WorkerServiceImport)
  list_worker_service_import owner_label namespace w =
      list_resources platform.worker_service_imports owner_label (some namespace) w

  -- The deletion of one import with its reports.
  unfoldable delete_import : WorkerServiceImport → M W (Unit {0})
  delete_import =
      delete_reported platform import_kind platform.worker_service_imports (λ i. i.metadata)
        (record { event = "EventWorkerServiceImportDeleted"; action = "deleted" })
        (record { event = "EventWorkerServiceImportDeletionFailed"; action = "deletion_failed" })

  -- DeleteWorkerServiceImportByLabel
  unfoldable pub delete_worker_service_import_by_label : Map String → String → M W (Unit {0})
  unfolding list_worker_service_import delete_import
  delete_worker_service_import_by_label owner_label namespace = do
    imported ← asks (list_worker_service_import owner_label namespace)
    each imported delete_import

  -- cleanUpWorkerServiceImportsForRemovedClusters
  unfoldable clean_up_imports_for_removed_clusters :
      Map String → String → List String → M W (Unit {0})
  unfolding list_worker_service_import delete_import
  clean_up_imports_for_removed_clusters owner_label namespace clusters = do
    imported ← asks (list_worker_service_import owner_label namespace)
    each imported (
        where_true (λ i. not (contains clusters (label i.metadata "worker-cluster"))) delete_import)

  abbrev write_import : WorkerServiceImport → Option WorkerServiceImport → M W (Unit {0})
  write_import new none = λ w.
      tolerated platform import_kind
        (record { event = "EventWorkerServiceImportCreated"; action = "created" })
        (record { event = "EventWorkerServiceImportCreationFailed"; action = "creation_failed" })
        new.metadata.name (create_resource platform.worker_service_imports new w)
  write_import new (some existing) = λ w.
      tolerated platform import_kind
        (record { event = "EventWorkerServiceImportUpdated"; action = "updated" })
        (record { event = "EventWorkerServiceImportUpdateFailed"; action = "update_failed" })
        existing.metadata.name
        (update_resource platform.worker_service_imports (touched_import (platform.now w) existing)
          w)

  -- The loop over the clusters. The label map is changed in place, and each cluster's labels are written over
  -- those of the one before; `with_labels` has the same four labels.
  unfoldable import_clusters : ServiceName → String → Map String → List String → M W (Unit {0})
  import_clusters service namespace labels [] = pure tt
  import_clusters service namespace labels (cluster ∷ rest) = do
    let labels' = with_labels namespace service.slice_name cluster labels
    let new = new_import service namespace labels' cluster
    existing ← asks (
        get_resource_if_exist platform.worker_service_imports
          (record { namespace = namespace; name = new.metadata.name }))
    write_import new existing
    import_clusters service namespace labels' rest

  -- CreateMinimalWorkerServiceImport
  unfoldable pub create_minimal_worker_service_import :
      ServiceName → (clusters : List String) (namespace : String) → Map String → M W (Unit {0})
  unfolding import_clusters clean_up_imports_for_removed_clusters
  create_minimal_worker_service_import service clusters namespace labels = do
    clean_up_imports_for_removed_clusters labels namespace clusters
    import_clusters service namespace labels clusters

  abbrev present_of : Outcome (List ServiceExportConfig) → Outcome (List ServiceExportConfig)
  present_of (ok exports) = ok (filter is_present exports)
  present_of (err e) = err e
  present_of panic = panic

  -- LookupServiceExportForService
  unfoldable pub lookup_service_export_for_service :
      (namespace service_name service_namespace slice_name : String)
      → W
      → Outcome (List ServiceExportConfig)
  lookup_service_export_for_service namespace service_name service_namespace slice_name w =
      present_of (
        list_resources platform.service_export_configs
          (("service-name", service_name)
            ∷ ("service-namespace", service_namespace)
            ∷ ("original-slice-name", slice_name)
            ∷ [])
          (some namespace) w)

  -- ForceReconciliation
  unfoldable pub force_reconciliation : List WorkerServiceImport → M W (Unit {0})
  force_reconciliation imported =
      each imported (λ i w.
        update_resource platform.worker_service_imports (touched_import (platform.now w) i) w)
