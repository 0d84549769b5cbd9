-- ===== src/SliceWebhook/Admission.antt =====
-- What the creation of a slice is accepted for (service/slice_config_webhook_validation.go).
use kubeslice_controller.Common.{
  ◌≤◌, String, ◌≡◌, sym, ◌↔◌, true, false, not, ◌&&◌, Option, none, some, ◌==◌, eq_iff, arith,
  IsDistinct, All, All-map, length, Option-cases, inl, inr,
}
use kubeslice_controller.Go.{ok}
use kubeslice_controller.Go.Accepts.{
  reject_if_iff, reject_if->>_iff, reject_if-&&, >>_iff, for_each_iff,
}
use kubeslice_controller.Go.Text.{◌<>◌}
use kubeslice_controller.Resources.Meta.{Namespace, label}
use kubeslice_controller.Resources.Slice.{SliceConfig, WorkerSliceGatewayProvider}
use kubeslice_controller.Resources.Cluster.{Cluster, ClusterHealth}
use kubeslice_controller.Platform.{Platform, exists?}
use kubeslice_controller.Util.Arrays.Laws.{check_duplicate_in_array-IsDistinct}
use kubeslice_controller.Util.Arrays.{check_duplicate_in_array}
use kubeslice_controller.Util.Subnets.{
  overlap_ip, is_private_subnet, has_prefix, has_last_two_octets_zero,
}
use kubeslice_controller.Util.Projects.{check_for_project_namespace}
use kubeslice_controller.SliceWebhook.Clusters.{
  has_network, validate_project_namespace, validate_clusters_on_create, validate_cluster_on_create,
  validate_cluster_network, fetch_cluster, unhealthy_if_known,
}
use kubeslice_controller.SliceWebhook.Isolation.{
  is_empty, validate_application_namespaces, validate_allowed_namespaces,
  validate_namespace_isolation_profile,
}
use kubeslice_controller.SliceWebhook.Updates.{validate_max_cluster_count}
use kubeslice_controller.SliceWebhook.Handlers.{
  when, validate_overlay, validate_slice_config_create,
}
use kubeslice_controller.SliceWebhook.Network.{
  validate_slice_subnet, validate_slicegateway_service_type,
}
use kubeslice_controller.SliceWebhook.ServiceTypes.{
  IsEntry, clusters_of_entries, validate_slicegateway_service_type_iff,
}

-- The bounds on the number of clusters.
abbrev pub IsWithinBounds : SliceConfig → Type 0
IsWithinBounds slice =
    (2 ≤ slice.spec.max_clusters)
    × (slice.spec.max_clusters ≤ 32)
    × (length slice.spec.clusters ≤ slice.spec.max_clusters)

-- validateMaxClusterCount returns no error exactly when the maximal number of clusters lies between 2 and
-- 32 and the slice has no more clusters than that.
validate_max_cluster_count_iff :
    (slice : SliceConfig) → (validate_max_cluster_count slice ≡ ok tt) ↔ IsWithinBounds slice
unfolding validate_max_cluster_count
validate_max_cluster_count_iff slice = (λ h. ground (arith, h), λ h. ground (arith, h))

-- A cluster that may join an overlay network.
abbrev HasNetwork : {W : Type 0} → Platform W → SliceConfig → Cluster → Type 0
HasNetwork platform slice cluster =
    (cluster.status.network_present ≡ true)
    × (is_empty cluster.status.cni_subnet ≡ false)
    × All (λ (cni : String). overlap_ip platform.parse_cidr6 cni slice.spec.slice_subnet ≡ false)
        cluster.status.cni_subnet

-- A cluster that may join the slice when it is created.
pub record IsUsable {W : Type 0} (platform : Platform W) (slice : SliceConfig) (cluster : Cluster)
    : Type 0 where
  pub registered : cluster.status.registration_status ≡ "Registered"
  pub healthy :
      (health : ClusterHealth)
      → cluster.status.cluster_health ≡ some health
      → health.cluster_health_status ≡ "Normal"
  pub has_nodes : is_empty cluster.spec.node_ips && is_empty cluster.status.node_ips ≡ false
  pub networked :
      has_network slice.spec.overlay_network_deployment_mode ≡ true
      → HasNetwork platform slice cluster

module _ {W : Type 0} (platform : Platform W) (w : W) (slice : SliceConfig) where
  -- With the mode's test as a variable.
  networked_if_accepted :
      (name : String) (cluster : Cluster)
      → validate_cluster_network platform w slice name cluster ≡ ok tt
      → (is_empty cluster.spec.node_ips && is_empty cluster.status.node_ips ≡ false)
        × (has_network slice.spec.overlay_network_deployment_mode ≡ true
            → HasNetwork platform slice cluster)
  unfolding validate_cluster_network
  networked_if_accepted name cluster h =
      let overlay = has_network slice.spec.overlay_network_deployment_mode in
      let status = cluster.status in
      let a =
        (reject_if->>_iff (is_empty cluster.spec.node_ips && is_empty status.node_ips) _ _).0 h in
      let b = (reject_if->>_iff (overlay && not status.network_present) _ _).0 a.1 in
      let c = (reject_if->>_iff (overlay && is_empty status.cni_subnet) _ _).0 b.1 in
      let d = (for_each_iff _ _).0 c.1 in
      (
        a.0,
        λ e. (
          ground (arith, e, b.0),
          ground (arith, e, c.0),
          All-map
              (λ (cni : String) k.
                reject_if-&& overlay (overlap_ip platform.parse_cidr6 cni slice.spec.slice_subnet) _
                  e k)
              cluster.status.cni_subnet d,
        ),
      )

  healthy_if_accepted :
      (health : Option ClusterHealth)
      → unhealthy_if_known health ≡ false
      → (h : ClusterHealth) → health ≡ some h
      → h.cluster_health_status ≡ "Normal"
  healthy_if_accepted none e h p = cc
  healthy_if_accepted (some health) e h p =
      let same : health ≡ h = cc in
      rw (sym same) (ground (arith, e, eq_iff health.cluster_health_status "Normal"))

  abbrev pub UsableCluster : String → Type 0
  UsableCluster name =
      (cluster : Cluster) × (exists? platform.clusters
          (record { namespace = slice.metadata.namespace; name = name }) w
        ≡ some cluster)
      × IsUsable platform slice cluster

  usable_if_accepted :
      (name : String)
      → validate_cluster_on_create platform w slice name ≡ ok tt
      → UsableCluster name
  unfolding validate_cluster_on_create fetch_cluster
  usable_if_accepted name h =
      elim (Option-cases (
        exists? platform.clusters (record { namespace = slice.metadata.namespace; name = name })
          w)) [
            | inl e ↦ let wrong = rw e at h in cc
            | inr (cluster, e) ↦
                let tests = rw e at h in
                let status = cluster.status in
                let a =
                  (reject_if->>_iff (not (status.registration_status == "Registered")) _ _).0
                    tests in
                let b = (reject_if->>_iff (unhealthy_if_known status.cluster_health) _ _).0 a.1 in
                let c = networked_if_accepted name cluster b.1 in
                (
                  cluster,
                  e,
                  record {
                    registered =
                        ground (arith, a.0, eq_iff cluster.status.registration_status "Registered");
                    healthy = healthy_if_accepted cluster.status.cluster_health b.0;
                    has_nodes = c.0;
                    networked = c.1;
                  },
                )
          ]

  clusters_if_accepted :
      validate_clusters_on_create platform w slice ≡ ok tt
      → IsDistinct slice.spec.clusters × All UsableCluster slice.spec.clusters
  unfolding validate_clusters_on_create
  clusters_if_accepted h =
      let a = (reject_if->>_iff (check_duplicate_in_array slice.spec.clusters).0 _ _).0 h in
      (
        (check_duplicate_in_array-IsDistinct slice.spec.clusters).0 a.0,
        All-map usable_if_accepted slice.spec.clusters
            ((for_each_iff _ (validate_cluster_on_create platform w slice)).0 a.1),
      )

  -- The project's namespace.
  abbrev pub IsInProject : Type 0
  IsInProject =
      (namespace : Namespace) × (exists? platform.namespaces
          (record { namespace = ""; name = slice.metadata.namespace }) w
        ≡ some namespace)
      × (label namespace.metadata "kubeslice-controller-resource-name"
          ≡ "Project-" <> namespace.metadata.name)

  project_if_accepted : validate_project_namespace platform w slice ≡ ok tt → IsInProject
  unfolding validate_project_namespace check_for_project_namespace
  project_if_accepted h =
      elim (Option-cases (
        exists? platform.namespaces (record { namespace = ""; name = slice.metadata.namespace })
          w)) [
            | inl e ↦ let wrong = rw (validate_project_namespace, e) at h in cc
            | inr (namespace, e) ↦
                let test =
                  (reject_if_iff (not (check_for_project_namespace namespace)) _).0
                    (rw (validate_project_namespace, e) at h) in
                (
                  namespace,
                  e,
                  ground (
                    arith,
                    test,
                    eq_iff (label namespace.metadata "kubeslice-controller-resource-name")
                        ("Project-" <> namespace.metadata.name),
                  ),
                )
          ]

  -- What the overlay network asks for: a private subnet with the text 16 for its last two characters,
  -- and a gateway provider with entries for distinct, participating clusters.
  abbrev pub IsOverlay : Type 0
  IsOverlay =
      (is_private_subnet platform.parse_cidr6 slice.spec.slice_subnet ≡ true)
      × (has_prefix slice.spec.slice_subnet "16" ≡ ok true)
      × (has_last_two_octets_zero platform.parse_cidr6 slice.spec.slice_subnet ≡ ok true)
      × ((provider : WorkerSliceGatewayProvider) × (slice.spec.slice_gateway_provider
            ≡ some provider)
          × IsDistinct (clusters_of_entries provider.slice_gateway_service_type)
          × All (IsEntry slice.spec.clusters)
              (clusters_of_entries provider.slice_gateway_service_type))

  subnet_if_accepted :
      validate_slice_subnet platform slice ≡ ok tt
      → (is_private_subnet platform.parse_cidr6 slice.spec.slice_subnet ≡ true)
        × (has_prefix slice.spec.slice_subnet "16" ≡ ok true)
        × (has_last_two_octets_zero platform.parse_cidr6 slice.spec.slice_subnet ≡ ok true)
  unfolding validate_slice_subnet
  subnet_if_accepted h = ground (arith, h)

  overlay_if_accepted : validate_overlay platform w slice (ok tt) ≡ ok tt → IsOverlay
  unfolding validate_overlay
  overlay_if_accepted h =
      let a = (>>_iff (validate_slice_subnet platform slice) _).0 h in
      let b = (>>_iff (validate_slicegateway_service_type slice) _).0 a.1 in
      let subnet = subnet_if_accepted a.0 in
      (subnet.0, subnet.1, subnet.2, (validate_slicegateway_service_type_iff slice).0 b.0)

  -- ValidateSliceConfigCreate returns no error only for a slice in the namespace of a project, whose
  -- clusters are pairwise distinct, no more than its maximal number, which lies between 2 and 32, and all
  -- registered, not known to be unhealthy and with node addresses; if the slice has an overlay network,
  -- each cluster has its network and subnets that do not overlap the slice's, and the slice's subnet is
  -- private, ends in the text 16, has two zero octets, and its gateway provider's entries name a star or
  -- participating clusters, no name twice.
  pub validate_slice_config_create_lem :
      validate_slice_config_create platform w slice ≡ ok tt
      → IsInProject
        × IsDistinct slice.spec.clusters
        × All UsableCluster slice.spec.clusters
        × IsWithinBounds slice
        × (has_network slice.spec.overlay_network_deployment_mode ≡ true → IsOverlay)
  unfolding validate_slice_config_create when
  validate_slice_config_create_lem h =
      let a = (>>_iff (validate_project_namespace platform w slice) _).0 h in
      let b = (>>_iff (validate_clusters_on_create platform w slice) _).0 a.1 in
      let c = (>>_iff (validate_application_namespaces platform w slice) _).0 b.1 in
      let d = (>>_iff (validate_allowed_namespaces slice) _).0 c.1 in
      let e = (>>_iff (validate_namespace_isolation_profile slice) _).0 d.1 in
      let f = (>>_iff (validate_max_cluster_count slice) _).0 e.1 in
      let clusters = clusters_if_accepted b.0 in
      (
        project_if_accepted a.0,
        clusters.0,
        clusters.1,
        (validate_max_cluster_count_iff slice).0 f.0,
        λ mode. overlay_if_accepted (rw mode at f.1),
      )
