-- ===== src/Webhooks/Exports.antt =====
-- service/service_export_config_webhook_validation.go. The deletion of an export is always accepted there.
pub mod Accepted
use kubeslice_controller.Common.{
  String, true, false, not, Bool, List, [], ◌∷◌, Option, none, some, contains,
}
use kubeslice_controller.Go.{
  FieldError, invalid, Outcome, ok, err, panic, reject_if, for_each, field, ◌>>◌,
}
use kubeslice_controller.Go.Text.{◌<>◌}
use kubeslice_controller.Resources.Meta.{Namespace}
use kubeslice_controller.Resources.Slice.{
  SliceConfig, ServiceExportConfig, ServiceDiscoveryEndpoint,
}
use kubeslice_controller.Resources.Cluster.{Cluster}
use kubeslice_controller.Platform.{Platform, exists?}
use kubeslice_controller.Util.Projects.{check_for_project_namespace}

-- A cluster that has to be registered and in a slice, with the errors where it is not.
abbrev pub check_cluster :
    (name : String) (unregistered absent : FieldError)
    → Option SliceConfig
    → Option Cluster
    → Outcome (Unit {0})
check_cluster name unregistered absent none cluster =
    err (field (invalid "Spec.SliceName" "There is no valid slice with this name"))
check_cluster name unregistered absent (some slice) none = err (field unregistered)
check_cluster name unregistered absent (some slice) (some cluster) =
    reject_if (not (contains slice.spec.clusters name)) absent

abbrev pub applied_in_project : Option Namespace → Outcome (Unit {0})
applied_in_project none = err (
    field (invalid "metadata.namespace" "ServiceExportConfig must be applied on project namespace"))
applied_in_project (some namespace) =
    reject_if (not (check_for_project_namespace namespace))
      (invalid "metadata.namespace" "ServiceExportConfig must be applied on project namespace")

module _ {W : Type 0} (platform : Platform W) (w : W) (export : ServiceExportConfig) where
  abbrev pub registered : String → Option Cluster
  registered name =
      exists? platform.clusters (record { namespace = export.metadata.namespace; name = name }) w

  abbrev pub exporting_slice : Option SliceConfig
  exporting_slice =
      exists? platform.slice_configs
        (record { namespace = export.metadata.namespace; name = export.spec.slice_name }) w

  -- validateServiceExportClusterAndSlice
  unfoldable pub validate_service_export_cluster_and_slice : Outcome (Unit {0})
  validate_service_export_cluster_and_slice =
      check_cluster export.spec.source_cluster
        (invalid "Spec.SourceCluster" "Cluster is not registered")
        (invalid "Spec.Cluster" (
          "Cluster " <> export.spec.source_cluster <> " is not a part of the slice "
          <> export.spec.slice_name))
        exporting_slice (registered export.spec.source_cluster)

  -- The body of the loop over the endpoints.
  abbrev pub validate_endpoint : ServiceDiscoveryEndpoint → Outcome (Unit {0})
  validate_endpoint endpoint =
      check_cluster endpoint.cluster
        (invalid "Spec.ServiceDiscoveryEndpoints.Cluster" "Cluster is not registered")
        (invalid "Spec.ServiceDiscoveryEndpoints.Cluster" (
          "Service Discovery Endpoint Cluster " <> endpoint.cluster
          <> " is not a part of the slice " <> export.spec.slice_name))
        exporting_slice (registered endpoint.cluster)

  -- validateServiceEndpoint
  unfoldable pub validate_service_endpoint : Outcome (Unit {0})
  validate_service_endpoint = for_each export.spec.service_discovery_endpoints validate_endpoint

  -- validateServiceExportConfigNamespace
  unfoldable pub validate_service_export_config_namespace : Outcome (Unit {0})
  validate_service_export_config_namespace =
      applied_in_project (
        exists? platform.namespaces (record { namespace = ""; name = export.metadata.namespace }) w)

  -- ValidateServiceExportConfigUpdate
  unfoldable pub validate_service_export_config_update : Outcome (Unit {0})
  validate_service_export_config_update = do
    validate_service_export_cluster_and_slice
    validate_service_endpoint

  -- ValidateServiceExportConfigCreate
  unfoldable pub validate_service_export_config_create : Outcome (Unit {0})
  validate_service_export_config_create = do
    validate_service_export_config_namespace
    validate_service_export_cluster_and_slice
    validate_service_endpoint
