-- ===== src/Slices/Reconcile.antt =====
-- ReconcileSliceConfig of service/slice_config_service.go: how the services of worker slices, gateways and
-- rotations are composed.
pub mod Duplicates
use kubeslice_controller.Common.{
  ℕ, String, Bool, true, false, not, ◌&&◌, ◌||◌, List, [], ◌∷◌, any, Option, none, some, Map,
  lookup, insert, ◌==◌,
}
use kubeslice_controller.Go.{Outcome, ok, err, panic}
use kubeslice_controller.Go.Effect.{M, ◌>>=◌, ◌>>◌, pure, asks, each}
use kubeslice_controller.Go.Text.{◌<>◌}
use kubeslice_controller.Resources.Meta.{ObjectMeta, Key, Namespace}
use kubeslice_controller.Resources.Slice.{SliceConfig, NetworkType, no_network, ServiceExportConfig}
use kubeslice_controller.Resources.Project.{Project}
use kubeslice_controller.Platform.{Platform, get_resource_if_exist, list_resources, update_resource}
use kubeslice_controller.Platform.Reporting.{reported}
use kubeslice_controller.Util.Arrays.{contains_string, check_duplicate_in_array}
use kubeslice_controller.Util.Ipam.{find_cidr_by_max_clusters}
use kubeslice_controller.Util.OwnerLabels.{get_owner_label}
use kubeslice_controller.Util.Labels.{filter_labels_and_annotations, add_missing}
use kubeslice_controller.Util.Projects.{get_project_name, check_for_project_namespace}
use kubeslice_controller.Util.Reconciliation.{Result, done, Object, add_finalizer, remove_finalizer}
use kubeslice_controller.SliceWebhook.Updates.{get_slice_gw_svc_types}
use kubeslice_controller.WorkerConfigs.Minimal.{
  create_minimal_worker_slice_config, create_minimal_worker_slice_config_for_no_network_slice,
}
use kubeslice_controller.Gateways.Certs.{JobSettings}
use kubeslice_controller.Gateways.Creation.{create_minimum_worker_slice_gateways}
use kubeslice_controller.KeyRotation.Outer.{
  create_minimal_vpn_key_rotation_config, reconcile_clusters,
}
use kubeslice_controller.ServiceDiscovery.Imports.{create_minimal_worker_service_import}
use kubeslice_controller.ServiceDiscovery.Exports.{service_of, get_owner_labels_for_service_export}
use kubeslice_controller.Slices.Namespaces.{handle_default_slice_config_appns}
use kubeslice_controller.Slices.Deletion.{
  slice_kind, slice_deleted, slice_deletion_failed, ownership_label,
  clean_up_slice_config_resources,
}

abbrev slice_config_finalizer : String
slice_config_finalizer = "controller.kubeslice.io/slice-configuration-finalizer"

abbrev with_metadata : ObjectMeta → SliceConfig → SliceConfig
with_metadata metadata slice = record slice { metadata = metadata }

abbrev slice_object : Object SliceConfig
slice_object = record {
  metadata = λ slice. slice.metadata;
  with_finalizers =
      λ finalizers slice. with_metadata (record slice.metadata { finalizers = finalizers }) slice;
}

module _ {W : Type 0} (platform : Platform W) (settings : JobSettings) (namespace : String) where
  -- The slice with the labels and annotations of its project.
  unfoldable adopt_labels : Option Project → SliceConfig → M W SliceConfig
  unfolding filter_labels_and_annotations add_missing
  adopt_labels none slice = pure slice
  adopt_labels (some project) slice =
      let (labels, more_labels) =
        add_missing (filter_labels_and_annotations project.metadata.labels) slice.metadata.labels in
      let (annotations, more_annotations) =
        add_missing (filter_labels_and_annotations project.metadata.annotations)
          slice.metadata.annotations in
      let adopted =
        with_metadata (record slice.metadata { labels = labels; annotations = annotations })
          slice in
      elim (more_labels || more_annotations) [
        | false ↦ pure adopted
        | true ↦ update_resource platform.slice_configs adopted >> pure adopted
      ]

  abbrev default_slice_if : Option Project → SliceConfig → M W (Unit {0})
  default_slice_if none slice = pure tt
  default_slice_if (some project) slice = elim project.spec.default_slice_creation [
    | false ↦ pure tt
    | true ↦ handle_default_slice_config_appns platform namespace (get_project_name namespace) slice
  ]

  -- getServiceExportBySliceName
  unfoldable pub get_service_export_by_slice_name : String → W → Outcome (List ServiceExportConfig)
  get_service_export_by_slice_name slice_name w =
      list_resources platform.service_export_configs (("original-slice-name", slice_name) ∷ [])
        (some namespace) w

  abbrev import_service : SliceConfig → ServiceExportConfig → M W (Unit {0})
  import_service slice export =
      create_minimal_worker_service_import platform (service_of export) slice.spec.clusters
        namespace (get_owner_labels_for_service_export export)

  -- A failure to create the rotation is an event.
  abbrev report_rotation : SliceConfig → Outcome (Unit {0}) × W → Outcome (Unit {0}) × W
  report_rotation slice (ok u, w) = (ok u, w)
  report_rotation slice (err e, w) =
      (err e, platform.record_event "EventVPNKeyRotationConfigCreationFailed" slice.metadata.name w)
  report_rotation slice (panic, w) = (panic, w)

  -- Steps 4 to 8 for a slice with a network.
  unfoldable derive_network : SliceConfig → M W Result
  unfolding get_service_export_by_slice_name
  derive_network slice = do
    let name = slice.metadata.name
    let cidr = find_cidr_by_max_clusters slice.spec.max_clusters
    let types = get_slice_gw_svc_types slice
    made ←
        create_minimal_worker_slice_config platform namespace name slice.spec.slice_subnet cidr
          types slice.spec.clusters (ownership_label slice)
    create_minimum_worker_slice_gateways platform settings
        (record {
          slice_name = name;
          namespace = namespace;
          cluster_map = made.0;
          slice_subnet = slice.spec.slice_subnet;
          cluster_cidr = cidr;
          types = types;
        })
        slice.spec.clusters made.1
    (λ w. report_rotation slice (
        create_minimal_vpn_key_rotation_config platform name slice.metadata.namespace
          slice.spec.rotation_interval w))
    reconcile_clusters platform name slice.metadata.namespace slice.spec.clusters
    exports ← asks (get_service_export_by_slice_name name)
    each exports (import_service slice)
    pure done

  -- Step 4 for a slice without a network, or the steps for one with a network.
  unfoldable derive : SliceConfig → M W Result
  unfolding derive_network
  derive slice = elim slice.spec.overlay_network_deployment_mode [
    | no_network ↦
        create_minimal_worker_slice_config_for_no_network_slice platform namespace
          slice.metadata.name slice.spec.clusters (ownership_label slice)
        >> pure done
    | _ ↦ derive_network slice
  ]

  abbrev derive_with_project : SliceConfig → Option Project → M W Result
  derive_with_project slice project = do
    adopted ← adopt_labels project slice
    default_slice_if project adopted
    derive adopted

  -- Steps 2 and 3.
  abbrev in_project : SliceConfig → Option Namespace → M W Result
  in_project slice none = pure done
  in_project slice (some found) = elim (check_for_project_namespace found) [
    | false ↦ pure done
    | true ↦
        asks (
          get_resource_if_exist platform.projects
            (record { namespace = "kubeslice-controller"; name = get_project_name namespace }))
        >>= derive_with_project slice
  ]

  abbrev ensure_finalizer : SliceConfig → M W (Result × SliceConfig)
  ensure_finalizer slice = elim (contains_string slice.metadata.finalizers slice_config_finalizer) [
    | true ↦ pure (done, slice)
    | false ↦
        add_finalizer platform platform.slice_configs slice_object slice_config_finalizer slice
  ]

  -- A slice that is not being deleted.
  unfoldable pub reconcile_present : SliceConfig → M W Result
  unfolding adopt_labels derive
  reconcile_present slice = do
    owned ← ensure_finalizer slice
    found ←
        asks
          (get_resource_if_exist platform.namespaces (record { namespace = ""; name = namespace }))
    in_project owned.1 found

  -- A slice that is being deleted; the end of it is reported.
  unfoldable pub reconcile_deleted : SliceConfig → M W Result
  reconcile_deleted slice = do
    clean_up_slice_config_resources platform slice namespace
    (λ w. reported platform slice_kind slice_deleted slice_deletion_failed slice.metadata.name (
        (remove_finalizer platform platform.slice_configs slice_object slice_config_finalizer slice
            >> pure tt)
          w))
    pure done

  abbrev pub reconcile_found : Option SliceConfig → M W Result
  reconcile_found none = pure done
  reconcile_found (some slice) = elim (check_duplicate_in_array slice.spec.clusters).0 [
    | true ↦ pure done
    | false ↦ elim slice.metadata.deletion_timestamp [
      | none ↦ reconcile_present slice
      | some t ↦ reconcile_deleted slice
    ]
  ]

  -- ReconcileSliceConfig
  unfoldable pub reconcile_slice_config : String → M W Result
  unfolding reconcile_present reconcile_deleted
  reconcile_slice_config name =
      asks (
        get_resource_if_exist platform.slice_configs
          (record { namespace = namespace; name = name }))
      >>= reconcile_found
