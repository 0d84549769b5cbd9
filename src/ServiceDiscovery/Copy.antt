-- ===== src/ServiceDiscovery/Copy.antt =====
-- ReconcileWorkerServiceImport of service/worker_service_import_service.go.
use kubeslice_controller.Common.{
  ℕ, String, true, false, List, [], ◌∷◌, ◌++◌, map, Option, none, some, insert,
}
use kubeslice_controller.Go.Effect.{M, ◌>>=◌, ◌>>◌, pure, asks}
use kubeslice_controller.Go.Text.{itoa}
use kubeslice_controller.Resources.Meta.{label}
use kubeslice_controller.Resources.Slice.{
  SliceConfig, ServiceExportConfig, ServiceDiscoveryEndpoint, ServiceDiscoveryPort,
}
use kubeslice_controller.Resources.Worker.{
  WorkerServiceImport, WorkerServiceImportSpec, WorkerServiceEndpoint, WorkerServicePort,
}
use kubeslice_controller.Platform.{Platform, get_resource_if_exist, update_resource}
use kubeslice_controller.Platform.Reporting.{notify, reported}
use kubeslice_controller.Util.Arrays.{contains_string}
use kubeslice_controller.Util.Reconciliation.{
  Result, done, Object, add_finalizer, remove_worker_finalizers,
}
use kubeslice_controller.ServiceDiscovery.Imports.{import_kind, lookup_service_export_for_service}

abbrev copy_endpoint : String → ServiceDiscoveryEndpoint → WorkerServiceEndpoint
copy_endpoint source_cluster endpoint = record {
  pod_name = endpoint.pod_name;
  cluster = source_cluster;
  nsm_ip = endpoint.nsm_ip;
  dns_name = endpoint.dns_name;
  port = endpoint.port;
}

abbrev copy_port : ServiceDiscoveryPort → WorkerServicePort
copy_port port = record {
  name = port.name;
  port = port.port;
  protocol = port.protocol;
  service_port = port.service_port;
  service_protocol = port.service_protocol;
}

unfoldable endpoints_of : List ServiceExportConfig → List WorkerServiceEndpoint
endpoints_of [] = []
endpoints_of (export ∷ rest) =
    map (copy_endpoint export.spec.source_cluster) export.spec.service_discovery_endpoints
    ++ endpoints_of rest

-- copySpecFromServiceExportConfigToWorkerServiceImport of a first export and the others
unfoldable copy_spec : ServiceExportConfig → List ServiceExportConfig → WorkerServiceImportSpec
unfolding endpoints_of
copy_spec first rest = record {
  service_name = first.spec.service_name;
  service_namespace = first.spec.service_namespace;
  source_clusters = map (λ export. export.spec.source_cluster) (first ∷ rest);
  slice_name = first.spec.slice_name;
  service_discovery_endpoints = endpoints_of (first ∷ rest);
  service_discovery_ports = map copy_port first.spec.service_discovery_ports;
  aliases = first.spec.aliases;
}

abbrev worker_service_import_finalizer : String
worker_service_import_finalizer = "worker.kubeslice.io/worker-service-import-finalizer"

abbrev import_object : Object WorkerServiceImport
import_object = record {
  metadata = λ imported. imported.metadata;
  with_finalizers = λ finalizers imported. record imported {
    metadata = record imported.metadata { finalizers = finalizers };
  };
}

abbrev touched_export : ℕ → ServiceExportConfig → ServiceExportConfig
touched_export now export = record export {
  metadata = record export.metadata {
    annotations = insert "updatedTimestamp" (itoa now) export.metadata.annotations;
  };
}

module _ {W : Type 0} (platform : Platform W) (namespace : String) where
  abbrev exports_of : WorkerServiceImport → M W (List ServiceExportConfig)
  exports_of imported = asks (
      lookup_service_export_for_service platform namespace imported.spec.service_name
        imported.spec.service_namespace imported.spec.slice_name)

  -- An import that was deleted while its service is exported to the cluster: the export is touched, so that the
  -- import is made again.
  unfoldable recreate_import : WorkerServiceImport → ServiceExportConfig → M W (Unit {0})
  recreate_import imported export w =
      let v =
        notify platform import_kind
          (record {
            event = "EventWorkerServiceImportDeletedForcefully";
            action = "deleted_forcefully";
          })
          imported.metadata.name w in
      reported platform import_kind
        (record { event = "EventWorkerServiceImportRecreated"; action = "recreated" })
        (record {
          event = "EventWorkerServiceImportRecreationFailed";
          action = "recreation_failed";
        })
        imported.metadata.name
        (update_resource platform.service_export_configs (touched_export (platform.now v) export) v)

  abbrev recreate_in :
      WorkerServiceImport → ServiceExportConfig → Option SliceConfig → M W (Unit {0})
  recreate_in imported export none = pure tt
  recreate_in imported export (some slice) =
      elim (contains_string slice.spec.clusters (label imported.metadata "worker-cluster")) [
        | true ↦ recreate_import imported export
        | false ↦ pure tt
      ]

  -- The exports that LookupServiceExportForService returns are not being deleted.
  abbrev recreate_if_exported : WorkerServiceImport → List ServiceExportConfig → M W (Unit {0})
  recreate_if_exported imported [] = pure tt
  recreate_if_exported imported (export ∷ rest) =
      asks (
        get_resource_if_exist platform.slice_configs
          (record { namespace = namespace; name = export.spec.slice_name }))
      >>= recreate_in imported export

  abbrev after_import_finalizers : WorkerServiceImport → Result → M W Result
  after_import_finalizers imported result = elim result.requeue [
    | true ↦ pure result
    | false ↦ exports_of imported >>= recreate_if_exported imported >> pure result
  ]

  abbrev update_spec : WorkerServiceImport → List ServiceExportConfig → M W Result
  update_spec imported [] = pure done
  update_spec imported (export ∷ rest) =
      update_resource platform.worker_service_imports
        (record imported { spec = copy_spec export rest })
      >> pure done

  abbrev ensure_import_finalizer : WorkerServiceImport → M W (Result × WorkerServiceImport)
  ensure_import_finalizer imported =
      elim (contains_string imported.metadata.finalizers worker_service_import_finalizer) [
        | true ↦ pure (done, imported)
        | false ↦
            add_finalizer platform platform.worker_service_imports import_object
              worker_service_import_finalizer imported
      ]

  abbrev reconcile_import : Option WorkerServiceImport → M W Result
  reconcile_import none = pure done
  reconcile_import (some imported) = elim imported.metadata.deletion_timestamp [
    | none ↦ (do
      owned ← ensure_import_finalizer imported
      exports ← exports_of owned.1
      update_spec owned.1 exports)
    | some t ↦
        remove_worker_finalizers platform platform.worker_service_imports import_object
          worker_service_import_finalizer imported
        >>= after_import_finalizers imported
  ]

  -- ReconcileWorkerServiceImport
  unfoldable reconcile_worker_service_import : String → M W Result
  unfolding copy_spec recreate_import
  reconcile_worker_service_import name =
      asks (
        get_resource_if_exist platform.worker_service_imports
          (record { namespace = namespace; name = name }))
      >>= reconcile_import
