-- ===== src/Gateways/Pairs.antt =====
-- The pair of gateways of two clusters (service/worker_slice_gateway_service.go). The map `label` that the
-- functions are given is changed in place, and their callers go on to use it: it is returned.
use kubeslice_controller.Common.{ℕ, String, List, [], ◌∷◌, Option, none, some, Map, insert}
use kubeslice_controller.Go.Effect.{M, ◌>>=◌, ◌>>◌, pure, asks}
use kubeslice_controller.Go.Text.{◌<>◌}
use kubeslice_controller.Resources.Meta.{named}
use kubeslice_controller.Resources.Cluster.{Cluster}
use kubeslice_controller.Resources.Worker.{SliceGatewayConfig, WorkerSliceGateway}
use kubeslice_controller.Platform.{Platform, get_resource_if_exist}
use kubeslice_controller.Platform.Reporting.{create_reported}
use kubeslice_controller.Gateways.Addresses.{NetworkAddresses}
use kubeslice_controller.Gateways.Certs.{gateway_kind, JobSettings, generate_certs}

abbrev pub server_gateway : String
server_gateway = "Server"

abbrev client_gateway : String
client_gateway = "Client"

-- `fmt.Sprintf(gatewayName, sliceName, source, destination)`
abbrev gateway_name_of : (slice_name source destination : String) → String
gateway_name_of slice_name source destination = slice_name <> "-" <> source <> "-" <> destination

-- The labels that buildMinimumGateway writes into the given map.
abbrev gateway_labels : (slice_name namespace source destination : String) → Map String → Map String
gateway_labels slice_name namespace source destination labels =
    insert "original-slice-name" slice_name (
      insert "project-namespace" namespace (
        insert "kubeslice-manager" "controller"
          (insert "remote-cluster" destination (insert "worker-cluster" source labels))))

abbrev or_else : List String → List String → List String
or_else [] other = other
or_else (x ∷ xs) other = x ∷ xs

-- The addresses of a cluster's nodes: those that its user gives, or those that the worker reports.
abbrev pub node_ips_of : Cluster → List String
node_ips_of cluster = or_else cluster.spec.node_ips cluster.status.node_ips

-- One side of a new gateway.
abbrev side_of : Cluster → (gateway subnet vpn : String) → SliceGatewayConfig
side_of cluster gateway subnet vpn = record {
  node_ip = cluster.spec.node_ip;
  node_ips = node_ips_of cluster;
  load_balancer_ips = [];
  node_port = 0;
  node_ports = [];
  gateway_name = gateway;
  cluster_name = cluster.metadata.name;
  vpn_ip = vpn;
  gateway_subnet = subnet;
}

-- The parameters of the two gateways of a pair.
pub record PairSpec : Type 0 where
  pub slice_name : String
  pub namespace : String
  pub connectivity_type : String
  pub protocol : String
  pub number : ℕ

-- buildMinimumGateway; the labels are those of the map after its writes.
unfoldable build_minimum_gateway :
    PairSpec
    → (source destination : Cluster) → (host_type : String) → Map String
    → (local_subnet local_vpn remote_name remote_subnet remote_vpn local_name : String)
    → WorkerSliceGateway
build_minimum_gateway pair source destination host_type labels local_subnet local_vpn remote_name
      remote_subnet remote_vpn local_name =
    let name = gateway_name_of pair.slice_name source.metadata.name destination.metadata.name in
    record {
      metadata = named name pair.namespace labels;
      spec = record {
        slice_name = pair.slice_name;
        gateway_type = "";
        gateway_host_type = host_type;
        gateway_connectivity_type = pair.connectivity_type;
        gateway_protocol = pair.protocol;
        secret_name = name;
        local_gateway_config = side_of source local_name local_subnet local_vpn;
        remote_gateway_config = side_of destination remote_name remote_subnet remote_vpn;
        gateway_number = pair.number;
      };
    }

module _ (pair : PairSpec) (source destination : Cluster) (addresses : NetworkAddresses) where
  abbrev pub server_name : String
  server_name = gateway_name_of pair.slice_name source.metadata.name destination.metadata.name

  abbrev pub client_name : String
  client_name = gateway_name_of pair.slice_name destination.metadata.name source.metadata.name

  abbrev server_labels : Map String → Map String
  server_labels =
      gateway_labels pair.slice_name pair.namespace source.metadata.name destination.metadata.name

  abbrev client_labels : Map String → Map String
  client_labels label =
      gateway_labels pair.slice_name pair.namespace destination.metadata.name source.metadata.name
        (server_labels label)

  -- `serverGatewayObject` and `clientGatewayObject`
  unfoldable pub server_object : Map String → WorkerSliceGateway
  unfolding build_minimum_gateway
  server_object label =
      build_minimum_gateway pair source destination server_gateway (server_labels label)
        addresses.server_subnet addresses.server_vpn_address client_name addresses.client_subnet
        addresses.client_vpn_address server_name

  unfoldable pub client_object : Map String → WorkerSliceGateway
  unfolding build_minimum_gateway
  client_object label =
      build_minimum_gateway pair destination source client_gateway (client_labels label)
        addresses.client_subnet addresses.client_vpn_address server_name addresses.server_subnet
        addresses.server_vpn_address client_name

  module _ {W : Type 0} (platform : Platform W) (settings : JobSettings) where
    -- The creation of one gateway with its reports.
    unfoldable pub create_gateway : WorkerSliceGateway → M W (Unit {0})
    create_gateway =
        create_reported platform gateway_kind platform.worker_slice_gateways (λ g. g.metadata)
          (record { event = "EventWorkerSliceGatewayCreated"; action = "created" })
          (record { event = "EventWorkerSliceGatewayCreationFailed"; action = "creation_failed" })

    abbrev pub find_gateway : String → M W (Option WorkerSliceGateway)
    find_gateway name = asks (
        get_resource_if_exist platform.worker_slice_gateways
          (record { namespace = pair.namespace; name = name }))

    -- The pair and the job for its certificates.
    unfoldable pub create_pair : Map String → M W (Map String)
    unfolding create_gateway server_object client_object
    create_pair label = do
      create_gateway (server_object label)
      create_gateway (client_object label)
      generate_certs platform settings pair.slice_name pair.namespace pair.protocol
          (server_object label) (client_object label) addresses
      pure (client_labels label)

    abbrev pub create_unless_found : Map String → Option WorkerSliceGateway → M W (Map String)
    create_unless_found label (some client) = pure label
    create_unless_found label none = create_pair label

    -- Where the server gateway exists, the client gateway is looked for.
    abbrev pub look_for_client : Map String → Option WorkerSliceGateway → M W (Map String)
    look_for_client label none = create_pair label
    look_for_client label (some server) = find_gateway client_name >>= create_unless_found label

    -- createMinimumGateWayPairIfNotExists
    unfoldable pub create_minimum_gateway_pair_if_not_exists : Map String → M W (Map String)
    unfolding create_pair
    create_minimum_gateway_pair_if_not_exists label =
        find_gateway server_name >>= look_for_client label
