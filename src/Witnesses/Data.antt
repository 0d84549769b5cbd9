-- ===== src/Witnesses/Data.antt =====
-- A small API server in memory, and the objects of the examples: a project with a slice of two clusters.
use kubeslice_controller.Common.{
  suc, ℕ, String, true, false, List, [], ◌∷◌, Option, none, some, inr, Map,
}
use kubeslice_controller.Resources.Meta.{ObjectMeta, Namespace, Job}
use kubeslice_controller.Resources.Slice.{
  SliceConfig, SliceConfigSpec, NetworkType, single_network, no_network, QosProfile,
  NamespaceIsolationProfile, SliceNamespaceSelection, WorkerSliceGatewayProvider,
  SliceGatewayServiceType, VpnConfiguration,
}
use kubeslice_controller.Resources.Cluster.{Cluster}
use kubeslice_controller.Resources.Worker.{
  WorkerSliceConfig, WorkerSliceGateway, SliceGatewayConfig, WorkerServiceImport,
}
use kubeslice_controller.Gateways.Certs.{JobSettings}
use kubeslice_controller.Gateways.Creation.{Request}
use kubeslice_controller.Gateways.Pairs.{PairSpec}
use kubeslice_controller.Gateways.Addresses.{NetworkAddresses}
use kubeslice_controller.Resources.Slice.{ExternalGatewayConfig, ServiceAccess, ServiceExportConfig}
use kubeslice_controller.Resources.Slice as Slice
use kubeslice_controller.Resources.Rotation.{VpnKeyRotation}
use kubeslice_controller.Platform.{Platform, Resource, found, missing}
use kubeslice_controller.KeyRotation.Services.{Services}
use kubeslice_controller.Go.{ok}

-- The server's state is the time.
abbrev pub Server : Type 0
Server = ℕ

abbrev pub nothing : {A : Type 0} → Resource Server A
nothing = record {
  get = λ key w. missing;
  list = λ labels namespace w. inr [];
  create = λ object w. (none, w);
  update = λ object w. (none, w);
  delete = λ object w. (none, w);
}

abbrev pub meta : String → String → Map String → ObjectMeta
meta name namespace labels = record {
  name = name;
  namespace = namespace;
  labels = labels;
  annotations = [];
  finalizers = [];
  owner_references = [];
  deletion_timestamp = none;
}

abbrev pub project : Namespace
project = record {
  metadata =
      meta "kubeslice-avesha" ""
        (("kubeslice-controller-resource-name", "Project-kubeslice-avesha") ∷ []);
}

abbrev pub cluster : String → Cluster
cluster name = record {
  metadata = meta name "kubeslice-avesha" [];
  spec = record {
    node_ip = "";
    node_ips = "192.0.2.1" ∷ [];
    geo_location = record { latitude = ""; longitude = "" };
  };
  status = record {
    cni_subnet = "192.168.0.0/16" ∷ [];
    namespaces = [];
    cluster_health = some (record { cluster_health_status = "Normal" });
    node_ips = [];
    registration_status = "Registered";
    network_present = true;
    is_deregister_in_progress = false;
    secret_name = "";
  };
}

-- A cluster whose namespace is in a slice.
abbrev pub onboarded : Cluster
onboarded = record (cluster "north") {
  status = record (cluster "north").status {
    namespaces = record { name = "web"; slice_name = "blue" } ∷ [];
  };
}

abbrev pub job : Job
job = record {
  metadata = meta "open-cert-1" "kubeslice-controller" [];
  spec = record {
    ttl_seconds_after_finished = 86400;
    backoff_limit = 2;
    image = "";
    environment = [];
    service_account_name = "";
    image_pull_secrets = [];
  };
  conditions = record { condition_type = "Complete"; status = "True" } ∷ [];
  active = 0;
}

abbrev pub server : Platform Server
server = record {
  namespaces = record nothing { get = λ key w. found project };
  clusters = record nothing { get = λ key w. found (cluster key.name) };
  slice_configs = nothing;
  slice_qos_configs = nothing;
  service_export_configs = nothing;
  worker_slice_configs = nothing;
  worker_slice_gateways = nothing;
  worker_service_imports = nothing;
  vpn_key_rotations = nothing;
  secrets = nothing;
  projects = nothing;
  worker_slice_gw_recyclers = nothing;
  roles = nothing;
  role_bindings = nothing;
  service_accounts = nothing;
  config_maps = nothing;
  update_cluster_status = λ cluster w. (none, w);
  unmarshal_map = λ s. none;
  range_keys = λ keys w. keys;
  new_uuid = λ w. "0a1b2c3d";
  jobs = record nothing { list = λ labels namespace w. inr (job ∷ []) };
  record_event = λ event name w. w;
  record_metric = λ report w. w;
  now = λ w. w;
  parse_cidr6 = λ s. none;
}

abbrev pub services : Services Server
services = record {
  list_worker_slice_configs = λ slice w. ok [];
  build_network_addresses = λ subnet source destination octets cidr. ok (record {
    server_network = "";
    client_network = "";
    server_subnet = "";
    client_subnet = "";
    server_vpn_network = "";
    server_vpn_address = "";
    client_vpn_address = "";
  });
  generate_certs = λ slice_name namespace protocol server client addresses w. (ok tt, w);
}

abbrev pub qos : QosProfile
qos = record {
  queue_type = "HTB";
  priority = 1;
  tc_type = "BANDWIDTH_CONTROL";
  bandwidth_ceiling_kbps = 5120;
  bandwidth_guaranteed_kbps = 2560;
  dscp_class = "AF11";
}

abbrev pub entry : String → SliceGatewayServiceType
entry name = record { cluster = name; service_type = "NodePort"; protocol = "UDP" }

abbrev pub provider : WorkerSliceGatewayProvider
provider = record {
  slice_gateway_type = "OpenVPN";
  slice_ca_type = "Local";
  slice_gateway_service_type = entry "west" ∷ [];
}

abbrev pub spec : List String → SliceConfigSpec
spec clusters = record {
  overlay_network_deployment_mode = single_network;
  slice_subnet = "10.1.0.0/16";
  slice_type = "Application";
  slice_gateway_provider = some provider;
  slice_ipam_type = "Local";
  clusters = clusters;
  standard_qos_profile_name = "";
  qos_profile_details = some qos;
  namespace_isolation_profile = record {
    isolation_enabled = false;
    application_namespaces = record { namespace = "shop"; clusters = "west" ∷ [] } ∷ [];
    allowed_namespaces = [];
  };
  external_gateway_config = [];
  max_clusters = 16;
  rotation_interval = 30;
  renew_before = none;
  vpn_config = some (record { cipher = "AES-256-CBC" });
}

abbrev pub slice : List String → SliceConfig
slice clusters = record { metadata = meta "red" "kubeslice-avesha" []; spec = spec clusters }

-- The same slice without a network.
abbrev pub plain : SliceConfig
plain =
    let s = slice ("west" ∷ "east" ∷ []) in
    record s { spec = record s.spec { overlay_network_deployment_mode = no_network } }

abbrev pub rotation : Option ℕ → VpnKeyRotation
rotation expiry = record {
  metadata = meta "red" "kubeslice-avesha" [];
  spec = record {
    slice_name = "red";
    cluster_gateway_mapping = [];
    certificate_creation_time = expiry;
    certificate_expiry_time = expiry;
    rotation_interval = 30;
    clusters = "west" ∷ "east" ∷ [];
    rotation_count = 1;
  };
  current_rotation_state = [];
}

abbrev pub worker : String → Option ℕ → WorkerSliceConfig
worker cluster octet = record {
  metadata = meta cluster "kubeslice-avesha" (("worker-cluster", cluster) ∷ []);
  spec = record {
    slice_name = "red";
    slice_subnet = "10.1.0.0/16";
    slice_type = "Application";
    slice_gateway_provider = record {
      slice_gateway_type = "OpenVPN";
      slice_ca_type = "Local";
      slice_gateway_service_type = "NodePort";
      slice_gateway_protocol = "UDP";
    };
    slice_ipam_type = "Local";
    qos_profile_details = qos;
    namespace_isolation_profile = record {
      isolation_enabled = false;
      application_namespaces = [];
      allowed_namespaces = [];
    };
    octet = octet;
    cluster_subnet_cidr = "/20";
    external_gateway_config = record {
      ingress = false;
      egress = false;
      ns_ingress = false;
      gateway_type = Slice.none;
      vpc_service_access = record { ingress = false; egress = false };
    };
    overlay_network_deployment_mode = some single_network;
  };
  status = record { onboarded_app_namespaces = [] };
}

-- A server with two worker slices, which counts deletions.
abbrev pub busy : Platform Server
busy = record server {
  worker_slice_configs = record nothing {
    list = λ labels namespace w. inr (worker "west" (some 0) ∷ worker "east" (some 1) ∷ []);
    delete = λ object w. (none, suc w);
  };
}

abbrev pub gateway : List String → ExternalGatewayConfig
gateway clusters = record {
  ingress = true;
  egress = false;
  ns_ingress = false;
  gateway_type = Slice.istio;
  clusters = clusters;
  vpc_service_access = record { ingress = false; egress = false };
}

abbrev pub side : String → SliceGatewayConfig
side name = record {
  node_ip = "";
  node_ips = "192.0.2.7" ∷ [];
  load_balancer_ips = [];
  node_port = 31000;
  node_ports = 31000 ∷ [];
  gateway_name = name;
  cluster_name = name;
  vpn_ip = "10.1.255.1";
  gateway_subnet = "10.1.0.0/20";
}

-- A gateway between two clusters.
abbrev pub tunnel : String → String → ℕ → WorkerSliceGateway
tunnel source destination number = record {
  metadata = meta source "kubeslice-avesha" [];
  spec = record {
    slice_name = "red";
    gateway_type = "OpenVPN";
    gateway_host_type = "Server";
    gateway_connectivity_type = "NodePort";
    gateway_protocol = "UDP";
    secret_name = source;
    local_gateway_config = side source;
    remote_gateway_config = side destination;
    gateway_number = number;
  };
}

-- A server with two gateways, which counts writes and deletions.
abbrev pub linked : Platform Server
linked = record server {
  worker_slice_gateways = record nothing {
    list = λ labels namespace w. inr (tunnel "west" "east" 1 ∷ tunnel "west" "south" 7 ∷ []);
    update = λ object w. (none, suc w);
    delete = λ object w. (none, suc w);
  };
}

-- A server that has no clusters.
abbrev pub empty : Platform Server
empty = record server { clusters = nothing }

abbrev pub settings : JobSettings
settings = record {
  job_namespace = "kubeslice-controller";
  job_image = "aveshasystems/gateway-certs-generator:latest";
  job_credential = "";
  job_service_account = "kubeslice-controller-ovpn-manager";
  log_level = "INFO";
  encode_to_base64 = λ request. request.slice_name;
}

abbrev pub request : Request
request = record {
  slice_name = "red";
  namespace = "kubeslice-avesha";
  cluster_map = ("west", 1) ∷ ("east", 2) ∷ [];
  slice_subnet = "10.1.0.0/16";
  cluster_cidr = "/20";
  types = [];
}

abbrev pub pair : PairSpec
pair = record {
  slice_name = "red";
  namespace = "kubeslice-avesha";
  connectivity_type = "NodePort";
  protocol = "UDP";
  number = 1;
}

abbrev pub addresses : NetworkAddresses
addresses = record {
  server_network = "10.1.240.0";
  client_network = "10.1.0.0";
  server_subnet = "10.1.240.0/20";
  client_subnet = "10.1.0.0/20";
  server_vpn_network = "10.1.255.0";
  server_vpn_address = "10.1.255.1";
  client_vpn_address = "10.1.255.2";
}

-- A gateway that two parties hold, deleted at time 100.
abbrev pub held_gateway : WorkerSliceGateway
held_gateway =
    let gateway = tunnel "west" "east" 1 in
    record gateway {
      metadata = record gateway.metadata {
        finalizers =
            "worker.kubeslice.io/worker-slice-gateway-finalizer" ∷ "example.com/other" ∷ [];
        deletion_timestamp = some 100;
      };
    }

abbrev import_of : String → WorkerServiceImport
import_of name = record {
  metadata = meta name "kubeslice-avesha" (("worker-cluster", name) ∷ []);
  spec = record {
    service_name = "shop";
    service_namespace = "shop";
    source_clusters = [];
    slice_name = "red";
    service_discovery_endpoints = [];
    service_discovery_ports = [];
    aliases = [];
  };
}

abbrev pub export_of : String → ServiceExportConfig
export_of cluster_name = record {
  metadata = meta cluster_name "kubeslice-avesha" [];
  spec = record {
    service_name = "shop";
    service_namespace = "shop";
    source_cluster = cluster_name;
    slice_name = "red";
    service_discovery_endpoints = [];
    service_discovery_ports = [];
    aliases = [];
  };
}

-- A server with two exports of a service and two imports, which counts updates.
abbrev pub exporting : Platform Server
exporting = record server {
  service_export_configs = record nothing {
    list = λ labels namespace w. inr (export_of "west" ∷ export_of "east" ∷ []);
  };
  worker_service_imports = record nothing {
    list = λ labels namespace w. inr (import_of "west" ∷ import_of "east" ∷ []);
    update = λ object w. (none, suc w);
    delete = λ object w. (none, 0);
  };
}
