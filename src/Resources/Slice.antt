-- ===== src/Resources/Slice.antt =====
-- apis/controller/v1alpha1: sliceconfig_types.go, sliceqosconfig_types.go, serviceexportconfig_types.go
use kubeslice_controller.Common.{ℕ, String, Bool, Option, List}
use kubeslice_controller.Resources.Meta.{ObjectMeta}

pub data NetworkType : Type 0 where
  single_network multi_network no_network : NetworkType

pub data GatewayType : Type 0 where
  unset none istio envoy : GatewayType

pub record ServiceAccess : Type 0 where
  pub ingress : Bool
  pub egress : Bool

-- `ExternalGatewayConfigOptions` is its one field `Enabled`.
pub record ExternalGatewayConfig : Type 0 where
  pub ingress : Bool
  pub egress : Bool
  pub ns_ingress : Bool
  pub gateway_type : GatewayType
  pub clusters : List String
  pub vpc_service_access : ServiceAccess

pub record SliceGatewayServiceType : Type 0 where
  pub cluster : String
  pub service_type : String
  pub protocol : String

pub record WorkerSliceGatewayProvider : Type 0 where
  pub slice_gateway_type : String
  pub slice_ca_type : String
  pub slice_gateway_service_type : List SliceGatewayServiceType

pub record QosProfile : Type 0 where
  pub queue_type : String
  pub priority : ℕ
  pub tc_type : String
  pub bandwidth_ceiling_kbps : ℕ
  pub bandwidth_guaranteed_kbps : ℕ
  pub dscp_class : String

pub record SliceNamespaceSelection : Type 0 where
  pub namespace : String
  pub clusters : List String

pub record NamespaceIsolationProfile : Type 0 where
  pub isolation_enabled : Bool
  pub application_namespaces : List SliceNamespaceSelection
  pub allowed_namespaces : List SliceNamespaceSelection

pub record VpnConfiguration : Type 0 where
  pub cipher : String

pub record SliceConfigSpec : Type 0 where
  pub overlay_network_deployment_mode : NetworkType
  pub slice_subnet : String
  pub slice_type : String
  pub slice_gateway_provider : Option WorkerSliceGatewayProvider
  pub slice_ipam_type : String
  pub clusters : List String
  pub standard_qos_profile_name : String
  pub qos_profile_details : Option QosProfile
  pub namespace_isolation_profile : NamespaceIsolationProfile
  pub external_gateway_config : List ExternalGatewayConfig
  pub max_clusters : ℕ
  pub rotation_interval : ℕ
  pub renew_before : Option ℕ
  pub vpn_config : Option VpnConfiguration

pub record SliceConfig : Type 0 where
  pub metadata : ObjectMeta
  pub spec : SliceConfigSpec

pub record SliceQosConfig : Type 0 where
  pub metadata : ObjectMeta
  pub spec : QosProfile

pub record ServiceDiscoveryEndpoint : Type 0 where
  pub pod_name : String
  pub cluster : String
  pub nsm_ip : String
  pub dns_name : String
  pub port : ℕ

pub record ServiceDiscoveryPort : Type 0 where
  pub name : String
  pub port : ℕ
  pub protocol : String
  pub service_port : ℕ
  pub service_protocol : String

pub record ServiceExportConfigSpec : Type 0 where
  pub service_name : String
  pub service_namespace : String
  pub source_cluster : String
  pub slice_name : String
  pub service_discovery_endpoints : List ServiceDiscoveryEndpoint
  pub service_discovery_ports : List ServiceDiscoveryPort
  pub aliases : List String

pub record ServiceExportConfig : Type 0 where
  pub metadata : ObjectMeta
  pub spec : ServiceExportConfigSpec
