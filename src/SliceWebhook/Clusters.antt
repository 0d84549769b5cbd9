-- ===== src/SliceWebhook/Clusters.antt =====
-- Validation of the project's namespace and of the slice's clusters, and of what a deletion leaves
-- behind (service/slice_config_webhook_validation.go).
use kubeslice_controller.Common.{
  String, Bool, true, false, not, ◌&&◌, List, [], ◌∷◌, Option, none, some, ◌==◌,
}
use kubeslice_controller.Go.{
  invalid, forbidden, duplicate, not_found, internal, Outcome, ok, err, reject_if, deref, for_each,
  field, ◌>>=◌, ◌>>◌,
}
use kubeslice_controller.Go.Text.{◌<>◌, join}
use kubeslice_controller.Resources.Slice.{SliceConfig, NetworkType, ServiceExportConfig}
use kubeslice_controller.Resources.Cluster.{
  Cluster, ClusterHealth, registration_status_registered, cluster_health_status_normal,
}
use kubeslice_controller.Resources.Worker.{WorkerSliceConfig}
use kubeslice_controller.Platform.{Platform, exists?, list_resources}
use kubeslice_controller.Util.Arrays.{check_duplicate_in_array, difference_of_array}
use kubeslice_controller.Util.Projects.{check_for_project_namespace}
use kubeslice_controller.Util.Subnets.{overlap_ip}
use kubeslice_controller.SliceWebhook.Isolation.{is_empty}

-- Whether the slice has an overlay network.
abbrev pub has_network : NetworkType → Bool
has_network NetworkType.no_network = false
has_network NetworkType.single_network = true
has_network NetworkType.multi_network = true

clusters_path : String
clusters_path = "Spec.Clusters"

-- `!exist` of GetResourceIfExist is the error of this branch.
abbrev registered_cluster : Option Cluster → Outcome Cluster
registered_cluster none = err (field (invalid "Spec.Clusters" "cluster is not registered"))
registered_cluster (some cluster) = ok cluster

abbrev pub unhealthy : ClusterHealth → Bool
unhealthy health = not (health.cluster_health_status == cluster_health_status_normal)

-- `ClusterHealth != nil && …`
abbrev pub unhealthy_if_known : Option ClusterHealth → Bool
unhealthy_if_known none = false
unhealthy_if_known (some health) = unhealthy health

module _ {W : Type 0} (platform : Platform W) (w : W) (slice : SliceConfig) where
  -- validateProjectNamespace
  unfoldable pub validate_project_namespace : Outcome (Unit {0})
  validate_project_namespace =
      elim (exists? platform.namespaces (record { namespace = ""; name = slice.metadata.namespace })
        w) [
          | none ↦ err (
              field
                (invalid "metadata.namespace" "SliceConfig must be applied on project namespace"))
          | some namespace ↦
              reject_if (not (check_for_project_namespace namespace))
                (invalid "metadata.namespace" "SliceConfig must be applied on project namespace")
        ]

  -- GetResourceIfExist of a cluster of the slice, with the test that it exists.
  unfoldable pub fetch_cluster : String → Outcome Cluster
  fetch_cluster name =
      registered_cluster
        (exists? platform.clusters (record { namespace = slice.metadata.namespace; name = name }) w)

  -- The test of the nodes and of the overlay network, the same on creation and on update.
  unfoldable pub validate_cluster_network : String → Cluster → Outcome (Unit {0})
  unfolding clusters_path
  validate_cluster_network name cluster = do
    let overlay = has_network slice.spec.overlay_network_deployment_mode
    reject_if (is_empty cluster.spec.node_ips && is_empty cluster.status.node_ips)
        (not_found "Status.NodeIPs" name)
    reject_if (overlay && not cluster.status.network_present)
        (invalid clusters_path "cluster network is not present")
    reject_if (overlay && is_empty cluster.status.cni_subnet) (not_found "Status.CniSubnet" name)
    for_each cluster.status.cni_subnet (λ cni_subnet.
        reject_if (overlay && overlap_ip platform.parse_cidr6 cni_subnet slice.spec.slice_subnet) (
          invalid "Spec.SliceSubnet"
            ("must not overlap with CniSubnet " <> cni_subnet <> " of cluster " <> name)))

  unfoldable pub validate_cluster_on_create : String → Outcome (Unit {0})
  unfolding fetch_cluster validate_cluster_network clusters_path
  validate_cluster_on_create name = do
    cluster ← fetch_cluster name
    reject_if (not (cluster.status.registration_status == registration_status_registered))
        (invalid clusters_path "cluster registration is not completed")
    reject_if (unhealthy_if_known cluster.status.cluster_health)
        (invalid clusters_path "cluster health is not normal")
    validate_cluster_network name cluster

  -- validateClustersOnCreate
  unfoldable pub validate_clusters_on_create : Outcome (Unit {0})
  unfolding validate_cluster_on_create clusters_path
  validate_clusters_on_create = do
    let (dup, value) = check_duplicate_in_array slice.spec.clusters
    reject_if dup (duplicate clusters_path (join value ", "))
    for_each slice.spec.clusters validate_cluster_on_create

  -- A cluster that the update adds. Its health is read through a pointer that may be nil.
  unfoldable pub validate_added_cluster : String → Outcome (Unit {0})
  unfolding fetch_cluster clusters_path
  validate_added_cluster name = do
    cluster ← fetch_cluster name
    reject_if (not (cluster.status.registration_status == registration_status_registered))
        (invalid clusters_path "cluster registration is not completed")
    health ← deref cluster.status.cluster_health
    reject_if (unhealthy health) (invalid clusters_path "cluster health is not normal")

  unfoldable pub validate_present_cluster : String → Outcome (Unit {0})
  unfolding fetch_cluster validate_cluster_network
  validate_present_cluster name = do
    cluster ← fetch_cluster name
    validate_cluster_network name cluster

  -- validateClustersOnUpdate
  unfoldable pub validate_clusters_on_update : SliceConfig → Outcome (Unit {0})
  unfolding validate_added_cluster validate_present_cluster clusters_path
  validate_clusters_on_update old = do
    let (dup, value) = check_duplicate_in_array slice.spec.clusters
    reject_if dup (duplicate clusters_path (join value ", "))
    for_each (difference_of_array slice.spec.clusters old.spec.clusters) validate_added_cluster
    for_each slice.spec.clusters validate_present_cluster

  -- getServiceExportBySliceName
  unfoldable pub get_service_export_by_slice_name : Outcome (List ServiceExportConfig)
  get_service_export_by_slice_name =
      list_resources platform.service_export_configs
        (("original-slice-name", slice.metadata.name) ∷ []) (some slice.metadata.namespace) w

  -- validateIfServiceExportConfigExists: an error of the list call lets the deletion pass.
  unfoldable pub validate_if_service_export_config_exists : Outcome (Unit {0})
  unfolding get_service_export_by_slice_name
  validate_if_service_export_config_exists = elim get_service_export_by_slice_name [
    | ok exports ↦
        reject_if (not (is_empty exports))
          (forbidden "ServiceExportConfig" "delete the service export configs first")
    | _ ↦ ok tt
  ]

  -- The body of the loop of checkNamespaceDeboardingStatus.
  abbrev check_worker_slice : WorkerSliceConfig → Outcome (Unit {0})
  check_worker_slice worker = do
    reject_if (not (is_empty worker.spec.namespace_isolation_profile.application_namespaces)) (
        forbidden "Field: ApplicationNamespaces"
          "Please deboard the namespaces before deletion of slice.")
    reject_if (not (is_empty worker.status.onboarded_app_namespaces)) (
        internal "Field: OnboardedAppNamespaces"
          "Deboarding of namespaces is in progress, please try after some time.")

  -- checkNamespaceDeboardingStatus
  unfoldable pub check_namespace_deboarding_status : Outcome (Unit {0})
  check_namespace_deboarding_status =
      elim (list_resources platform.worker_slice_configs
        (("original-slice-name", slice.metadata.name) ∷ []) (some slice.metadata.namespace) w) [
          | ok workers ↦ for_each workers check_worker_slice
          | _ ↦ ok tt
        ]
