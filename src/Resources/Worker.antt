-- ===== src/Resources/Worker.antt =====
-- apis/worker/v1alpha1: workersliceconfig_types.go, workerslicegateway_types.go, workerserviceimport_types.go
-- Octets and gateway numbers are written by the controller only, which never makes them negative.
use kubeslice_controller.Common.{ℕ, String, Bool, Option, List}
use kubeslice_controller.Resources.Meta.{ObjectMeta}
use kubeslice_controller.Resources.Slice.{NetworkType, GatewayType, QosProfile, ServiceAccess}

pub record WorkerGatewayProvider : Type 0 where
  pub slice_gateway_type : String
  pub slice_ca_type : String
  pub slice_gateway_service_type : String
  pub slice_gateway_protocol : String

pub record WorkerIsolationProfile : Type 0 where
  pub isolation_enabled : Bool
  pub application_namespaces : List String
  pub allowed_namespaces : List String

pub record WorkerExternalGatewayConfig : Type 0 where
  pub ingress : Bool
  pub egress : Bool
  pub ns_ingress : Bool
  pub gateway_type : GatewayType
  pub vpc_service_access : ServiceAccess

pub record WorkerSliceConfigSpec : Type 0 where
  pub slice_name : String
  pub slice_subnet : String
  pub slice_type : String
  pub slice_gateway_provider : WorkerGatewayProvider
  pub slice_ipam_type : String
  pub qos_profile_details : QosProfile
  pub namespace_isolation_profile : WorkerIsolationProfile
  pub octet : Option ℕ
  pub cluster_subnet_cidr : String
  pub external_gateway_config : WorkerExternalGatewayConfig
  pub overlay_network_deployment_mode : Option NetworkType

pub record WorkerSliceConfigStatus : Type 0 where
  pub onboarded_app_namespaces : List String

pub record WorkerSliceConfig : Type 0 where
  pub metadata : ObjectMeta
  pub spec : WorkerSliceConfigSpec
  pub status : WorkerSliceConfigStatus

pub record SliceGatewayConfig : Type 0 where
  pub node_ip : String
  pub node_ips : List String
  pub load_balancer_ips : List String
  pub node_port : ℕ
  pub node_ports : List ℕ
  pub gateway_name : String
  pub cluster_name : String
  pub vpn_ip : String
  pub gateway_subnet : String

pub record WorkerSliceGatewaySpec : Type 0 where
  pub slice_name : String
  pub gateway_type : String
  pub gateway_host_type : String
  pub gateway_connectivity_type : String
  pub gateway_protocol : String
  pub secret_name : String
  pub local_gateway_config : SliceGatewayConfig
  pub remote_gateway_config : SliceGatewayConfig
  pub gateway_number : ℕ

pub record WorkerSliceGateway : Type 0 where
  pub metadata : ObjectMeta
  pub spec : WorkerSliceGatewaySpec

pub record WorkerServiceEndpoint : Type 0 where
  pub pod_name : String
  pub cluster : String
  pub nsm_ip : String
  pub dns_name : String
  pub port : ℕ

pub record WorkerServicePort : Type 0 where
  pub name : String
  pub port : ℕ
  pub protocol : String
  pub service_port : ℕ
  pub service_protocol : String

pub record WorkerServiceImportSpec : Type 0 where
  pub service_name : String
  pub service_namespace : String
  pub source_clusters : List String
  pub slice_name : String
  pub service_discovery_endpoints : List WorkerServiceEndpoint
  pub service_discovery_ports : List WorkerServicePort
  pub aliases : List String

pub record WorkerServiceImport : Type 0 where
  pub metadata : ObjectMeta
  pub spec : WorkerServiceImportSpec
