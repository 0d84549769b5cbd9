-- ===== src/Resources/Cluster.antt =====
-- apis/controller/v1alpha1/cluster_types.go
use kubeslice_controller.Common.{String, Bool, Option, List}
use kubeslice_controller.Resources.Meta.{ObjectMeta}

pub record GeoLocation : Type 0 where
  pub latitude : String
  pub longitude : String

pub record ClusterSpec : Type 0 where
  pub node_ip : String
  pub node_ips : List String
  pub geo_location : GeoLocation

pub record NamespacesConfig : Type 0 where
  pub name : String
  pub slice_name : String

pub record ClusterHealth : Type 0 where
  pub cluster_health_status : String

pub record ClusterStatus : Type 0 where
  pub cni_subnet : List String
  pub namespaces : List NamespacesConfig
  pub cluster_health : Option ClusterHealth
  pub node_ips : List String
  pub registration_status : String
  pub network_present : Bool
  pub is_deregister_in_progress : Bool
  pub secret_name : String

pub record Cluster : Type 0 where
  pub metadata : ObjectMeta
  pub spec : ClusterSpec
  pub status : ClusterStatus

abbrev pub registration_status_registered : String
registration_status_registered = "Registered"

abbrev pub registration_status_deregister_failed : String
registration_status_deregister_failed = "DeregisterFailed"

abbrev pub registration_status_deregistered : String
registration_status_deregistered = "Deregistered"

abbrev pub cluster_health_status_normal : String
cluster_health_status_normal = "Normal"
