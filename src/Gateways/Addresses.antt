-- ===== src/Gateways/Addresses.antt =====
-- BuildNetworkAddresses and buildCertPairRequest of service/worker_slice_gateway_service.go.
pub mod Apart
use kubeslice_controller.Common.{ℕ, String, List, [], ◌∷◌, Map, lookup, get_or, get_elem?}
use kubeslice_controller.Go.{Outcome, ok, deref, ◌>>=◌}
use kubeslice_controller.Go.Text.{◌<>◌, itoa, split}
use kubeslice_controller.Resources.Worker.{WorkerSliceGateway}
use kubeslice_controller.Util.Ipam.{get_cluster_prefix_pool}

-- WorkerSliceGatewayNetworkAddresses of util/common.go
pub record NetworkAddresses : Type 0 where
  pub server_network : String
  pub client_network : String
  pub server_subnet : String
  pub client_subnet : String
  pub server_vpn_network : String
  pub server_vpn_address : String
  pub client_vpn_address : String

-- `clusterMap[cluster]`
abbrev pub octet_of : Map ℕ → String → ℕ
octet_of cluster_map cluster = get_or (lookup cluster cluster_map) 0

-- `fmt.Sprintf("%s.%s.%d.%s", ipr[0], ipr[1], 255, host)`
abbrev pub vpn_address : String → String → String → String
vpn_address a b host = a <> "." <> b <> "." <> itoa 255 <> "." <> host

-- BuildNetworkAddresses
unfoldable pub build_network_addresses :
    (slice_subnet source destination : String)
    → Map ℕ
    → (cluster_cidr : String) → Outcome NetworkAddresses
build_network_addresses slice_subnet source destination cluster_map cluster_cidr = do
  let ipr = split slice_subnet "."
  server ← get_cluster_prefix_pool slice_subnet (octet_of cluster_map source) cluster_cidr
  client ← get_cluster_prefix_pool slice_subnet (octet_of cluster_map destination) cluster_cidr
  server_net ← deref (get_elem? (split server "/") 0)
  client_net ← deref (get_elem? (split client "/") 0)
  a ← deref (get_elem? ipr 0)
  b ← deref (get_elem? ipr 1)
  ok (record {
    server_network = server_net;
    client_network = client_net;
    server_subnet = server;
    client_subnet = client;
    server_vpn_network = vpn_address a b "0";
    server_vpn_address = vpn_address a b "1";
    client_vpn_address = vpn_address a b "2";
  })

pub record IndividualCertPairRequest : Type 0 where
  pub vpn_fqdn : String
  pub nsm_server_network : String
  pub nsm_client_network : String
  pub nsm_mask : String
  pub vpn_ip_to_client : String
  pub vpn_network : String
  pub vpn_mask : String
  pub client_id : String
  pub server_id : String

pub record CertPairRequestMap : Type 0 where
  pub slice_name : String
  pub pairs : List IndividualCertPairRequest

-- buildCertPairRequest
unfoldable pub build_cert_pair_request :
    String → WorkerSliceGateway → WorkerSliceGateway → NetworkAddresses → CertPairRequestMap
build_cert_pair_request name gateway1 gateway2 addresses = record {
  slice_name = name;
  pairs =
      record {
        vpn_fqdn =
            gateway1.spec.local_gateway_config.cluster_name
            <> "-"
            <> name
            <> "-"
            <> itoa gateway1.spec.gateway_number
            <> ".vpn.aveshasystems.com";
        nsm_server_network = addresses.server_network;
        nsm_client_network = addresses.client_network;
        nsm_mask = "255.255.255.0";
        vpn_ip_to_client = addresses.client_vpn_address;
        vpn_network = addresses.server_vpn_network;
        vpn_mask = "255.255.255.0";
        client_id = gateway2.metadata.name;
        server_id = gateway1.metadata.name;
      }
      ∷ [];
}
