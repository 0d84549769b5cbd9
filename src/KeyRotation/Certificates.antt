-- ===== src/KeyRotation/Certificates.antt =====
-- The jobs for new certificates and the gateways of each cluster (service/vpn_key_rotation_service.go).
use kubeslice_controller.Common.{
  String, true, false, List, [], ◌∷◌, none, some, Map, insert, ◌==◌, if◌then◌else◌,
}
use kubeslice_controller.Go.{message, Outcome, ok, err}
use kubeslice_controller.Go.Effect.{M, ◌>>=◌, pure, asks, each}
use kubeslice_controller.Go.Text.{◌<>◌}
use kubeslice_controller.Resources.Slice.{SliceConfig}
use kubeslice_controller.Resources.Worker.{WorkerSliceGateway}
use kubeslice_controller.Resources.Rotation.{VpnKeyRotation}
use kubeslice_controller.Platform.{Platform, list_resources}
use kubeslice_controller.Util.Ipam.{find_cidr_by_max_clusters}
use kubeslice_controller.WorkerConfigs.Octets.{compute_cluster_map}
use kubeslice_controller.KeyRotation.Services.{Services}

-- listClientPairGateway
unfoldable list_client_pair_gateway : List WorkerSliceGateway → String → Outcome WorkerSliceGateway
list_client_pair_gateway [] name = err (message ("cannot find gateway " <> name))
list_client_pair_gateway (gateway ∷ rest) name =
    let later = list_client_pair_gateway rest name in
    if gateway.metadata.name == name then ok gateway else later

-- fetchGatewayNames
unfoldable fetch_gateway_names : List WorkerSliceGateway → List String
fetch_gateway_names [] = []
fetch_gateway_names (gateway ∷ rest) = elim gateway.metadata.deletion_timestamp [
  | none ↦ gateway.metadata.name ∷ fetch_gateway_names rest
  | some t ↦ fetch_gateway_names rest
]

module _ {W : Type 0} (platform : Platform W) where
  -- listWorkerSliceGateways: in all namespaces.
  unfoldable list_worker_slice_gateways : Map String → W → Outcome (List WorkerSliceGateway)
  list_worker_slice_gateways labels w = list_resources platform.worker_slice_gateways labels none w

  -- The loop of constructClusterGatewayMapping.
  unfoldable gateways_of_clusters :
      String → List String → Map (List String) → M W (Map (List String))
  unfolding list_worker_slice_gateways fetch_gateway_names
  gateways_of_clusters slice_name [] mapping = pure mapping
  gateways_of_clusters slice_name (cluster ∷ rest) mapping = do
    gateways ← asks (
        list_worker_slice_gateways
          (("worker-cluster", cluster) ∷ ("original-slice-name", slice_name) ∷ []))
    gateways_of_clusters slice_name rest (insert cluster (fetch_gateway_names gateways) mapping)

  -- constructClusterGatewayMapping
  unfoldable pub construct_cluster_gateway_mapping : SliceConfig → M W (Map (List String))
  unfolding gateways_of_clusters
  construct_cluster_gateway_mapping slice =
      gateways_of_clusters slice.metadata.name slice.spec.clusters []

  module _ (services : Services W) (slice : SliceConfig) where
    -- The body of the loop of triggerJobsForCertCreation, for a server gateway.
    unfoldable trigger_job : List WorkerSliceGateway → WorkerSliceGateway → M W (Unit {0})
    unfolding list_client_pair_gateway
    trigger_job gateways gateway = do
      client ←
          asks
            (λ w. list_client_pair_gateway gateways gateway.spec.remote_gateway_config.gateway_name)
      let cluster_cidr = find_cidr_by_max_clusters slice.spec.max_clusters
      configs ← asks (services.list_worker_slice_configs slice)
      cluster_map ← asks (λ w. compute_cluster_map slice.spec.clusters configs)
      addresses ← asks (λ w.
          services.build_network_addresses slice.spec.slice_subnet
            gateway.spec.local_gateway_config.cluster_name
            gateway.spec.remote_gateway_config.cluster_name cluster_map cluster_cidr)
      services.generate_certs slice.metadata.name slice.metadata.namespace
          gateway.spec.gateway_protocol gateway client addresses

    -- triggerJobsForCertCreation
    unfoldable pub trigger_jobs_for_cert_creation : VpnKeyRotation → M W (Unit {0})
    unfolding list_worker_slice_gateways trigger_job
    trigger_jobs_for_cert_creation rotation = do
      gateways ←
          asks (list_worker_slice_gateways (("original-slice-name", rotation.spec.slice_name) ∷ []))
      each gateways (λ gateway. elim (gateway.spec.gateway_host_type == "Server") [
        | true ↦ trigger_job gateways gateway
        | false ↦ pure tt
      ])
