-- ===== src/Webhooks/Exports/Accepted.antt =====
-- What the validation of exports accepts (service/service_export_config_webhook_validation.go).
use kubeslice_controller.Common.{
  String, ◌≡◌, refl, sym, ap, ◌∙◌, ◌↔◌, true, not, Option, none, some, contains, All, All-map,
  arith,
}
use kubeslice_controller.Go.{FieldError, ok}
use kubeslice_controller.Go.Accepts.{reject_if_iff, >>_iff, for_each_iff}
use kubeslice_controller.Resources.Meta.{Namespace}
use kubeslice_controller.Resources.Slice.{
  SliceConfig, ServiceExportConfig, ServiceDiscoveryEndpoint,
}
use kubeslice_controller.Resources.Cluster.{Cluster}
use kubeslice_controller.Platform.{Platform, exists?}
use kubeslice_controller.Util.Projects.{check_for_project_namespace}
use kubeslice_controller.Webhooks.Exports.{
  check_cluster, applied_in_project, registered, exporting_slice, validate_endpoint,
  validate_service_export_cluster_and_slice, validate_service_endpoint,
  validate_service_export_config_namespace, validate_service_export_config_update,
  validate_service_export_config_create,
}

abbrev Joined : String → Option SliceConfig → Option Cluster → Type 0
Joined name found cluster =
    (slice : SliceConfig) × (c : Cluster) × (found ≡ some slice)
    × (cluster ≡ some c)
    × (contains slice.spec.clusters name ≡ true)

check_cluster_iff :
    (name : String) (e f : FieldError) (found : Option SliceConfig) (cluster : Option Cluster)
    → (check_cluster name e f found cluster ≡ ok tt) ↔ Joined name found cluster
check_cluster_iff name e f none cluster = (λ h. cc, λ h. let (s, c, p, q, r) = h in cc)
check_cluster_iff name e f (some slice) none = (λ h. cc, λ h. let (s, c, p, q, r) = h in cc)
check_cluster_iff name e f (some slice) (some cluster) =
    let test = reject_if_iff (not (contains slice.spec.clusters name)) f in
    (
      λ h. let absent = test.0 h in (slice, cluster, refl, refl, ground (arith, absent)),
      λ h.
          let (s, c, p, q, r) = h in
          let same : s ≡ slice = cc in
          test.1 (ap not (ap (λ t. contains t.spec.clusters name) (sym same) ∙ r)),
    )

in_project_iff :
    (found : Option Namespace)
    → (applied_in_project found ≡ ok tt) ↔ (
        (namespace : Namespace) × (found ≡ some namespace)
        × (check_for_project_namespace namespace ≡ true))
in_project_iff none = (λ h. cc, λ h. let (n, p, q) = h in cc)
in_project_iff (some namespace) =
    let test = reject_if_iff (not (check_for_project_namespace namespace)) _ in
    (
      λ h. let outside = test.0 h in (namespace, refl, ground (arith, outside)),
      λ h.
          let (n, p, q) = h in
          let same : n ≡ namespace = cc in
          test.1 (ap not (ap check_for_project_namespace (sym same) ∙ q)),
    )

module _ {W : Type 0} (platform : Platform W) (w : W) (export : ServiceExportConfig) where
  -- A registered cluster of the slice that the export names.
  abbrev IsMember : String → Type 0
  IsMember name =
      Joined name (exporting_slice platform w export) (registered platform w export name)

  -- The cluster of an export and the clusters of its endpoints are in its slice.
  pub record AreMembers : Type 0 where
    pub source : IsMember export.spec.source_cluster
    pub endpoints :
        All
          (λ (endpoint : ServiceDiscoveryEndpoint). IsMember endpoint.cluster)
          export.spec.service_discovery_endpoints

  -- The namespace of an export exists and is that of a project.
  abbrev pub InProject : Type 0
  InProject =
      (namespace : Namespace) × (exists? platform.namespaces
          (record { namespace = ""; name = export.metadata.namespace }) w
        ≡ some namespace)
      × (check_for_project_namespace namespace ≡ true)

  source_iff :
      (validate_service_export_cluster_and_slice platform w export ≡ ok tt)
      ↔ IsMember export.spec.source_cluster
  unfolding validate_service_export_cluster_and_slice
  source_iff = check_cluster_iff export.spec.source_cluster _ _ _ _

  endpoints_iff :
      (validate_service_endpoint platform w export ≡ ok tt)
      ↔ All
          (λ (endpoint : ServiceDiscoveryEndpoint). IsMember endpoint.cluster)
          export.spec.service_discovery_endpoints
  unfolding validate_service_endpoint
  endpoints_iff =
      let endpoints = export.spec.service_discovery_endpoints in
      let loop = for_each_iff endpoints (validate_endpoint platform w export) in
      (
        λ h.
            All-map
              (λ (endpoint : ServiceDiscoveryEndpoint) k.
                (check_cluster_iff endpoint.cluster _ _ _ _).0 k)
              endpoints (loop.0 h),
        λ h. loop.1 (
            All-map
              (λ (endpoint : ServiceDiscoveryEndpoint) k.
                (check_cluster_iff endpoint.cluster _ _ _ _).1 k)
              endpoints h),
      )

  validate_service_export_config_update_iff :
      (validate_service_export_config_update platform w export ≡ ok tt) ↔ AreMembers
  unfolding validate_service_export_config_update
  validate_service_export_config_update_iff =
      let both =
        >>_iff (validate_service_export_cluster_and_slice platform w export)
          (validate_service_endpoint platform w export) in
      (
        λ h. record {
          source = source_iff.0 (both.0 h).0;
          endpoints = endpoints_iff.0 (both.0 h).1;
        },
        λ h. both.1 (source_iff.1 h.source, endpoints_iff.1 h.endpoints),
      )

  -- An export may be created exactly in the namespace of a project, where its slice exists, and the cluster
  -- of the export and that of each endpoint are registered and among the clusters of the slice.
  pub validate_service_export_config_create_iff :
      (validate_service_export_config_create platform w export ≡ ok tt) ↔ (InProject × AreMembers)
  unfolding validate_service_export_config_create validate_service_export_config_update
      validate_service_export_config_namespace
  validate_service_export_config_create_iff =
      let found =
        exists? platform.namespaces (record { namespace = ""; name = export.metadata.namespace })
          w in
      let project = in_project_iff found in
      let update = validate_service_export_config_update_iff in
      let both =
        >>_iff (applied_in_project found)
          (validate_service_export_config_update platform w export) in
      (
        λ h. (project.0 (both.0 h).0, update.0 (both.0 h).1),
        λ h. both.1 (project.1 h.0, update.1 h.1),
      )
