-- ===== src/SliceWebhook/Network.antt =====
-- Validation of a slice's subnet, gateways and QoS profile (service/slice_config_webhook_validation.go).
use kubeslice_controller.Common.{
  ℕ, ◌+◌, String, Bool, true, false, not, ◌&&◌, List, [], ◌∷◌, ◌++◌, Option, none, some, Map,
  lookup, insert, get_or, ◌==◌, ltb, length,
}
use kubeslice_controller.Go.{
  required, invalid, duplicate, Outcome, ok, err, reject_if, field, ◌>>=◌, ◌>>◌,
}
use kubeslice_controller.Go.Text.{join}
use kubeslice_controller.Resources.Slice.{
  SliceConfig, SliceGatewayServiceType, ExternalGatewayConfig, QosProfile,
}
use kubeslice_controller.Platform.{Platform, exists?}
use kubeslice_controller.Util.Arrays.{contains_string, check_duplicate_in_array}
use kubeslice_controller.Util.Subnets.{is_private_subnet, has_prefix, has_last_two_octets_zero}

-- validateSliceSubnet
unfoldable pub validate_slice_subnet : {W : Type 0} → Platform W → SliceConfig → Outcome (Unit {0})
validate_slice_subnet platform slice = do
  let subnet = slice.spec.slice_subnet
  reject_if (subnet == "") (required "Spec.SliceSubnet" "SliceSubnet is required for slice config")
  reject_if (not (is_private_subnet platform.parse_cidr6 subnet))
      (invalid "Spec.sliceSubnet" "must be a private subnet")
  slash16 ← has_prefix subnet "16"
  reject_if (not slash16) (invalid "Spec.sliceSubnet" "prefix must be 16")
  zeros ← has_last_two_octets_zero platform.parse_cidr6 subnet
  reject_if (not zeros) (invalid "Spec.sliceSubnet" "third and fourth octets must be 0")

gateway_type_path : String
gateway_type_path = "Spec.SliceGatewayProvider.SliceGatewayServiceType"

-- The loop of validateSlicegatewayServiceType; `freq` counts the entries of each cluster.
unfoldable pub service_types_from :
    List String → Map ℕ → List SliceGatewayServiceType → Outcome (Unit {0})
unfolding gateway_type_path
service_types_from clusters freq [] = ok tt
service_types_from clusters freq (entry ∷ rest) = do
  let cluster = entry.cluster
  let count = get_or (lookup cluster freq) 0 + 1
  reject_if (cluster == "") (invalid gateway_type_path "Cluster name can't be empty")
  reject_if (not (cluster == "*") && not (contains_string clusters cluster))
      (invalid gateway_type_path "Cluster is not participating in slice config")
  reject_if (ltb 1 count)
      (invalid gateway_type_path "Duplicate entries for same cluster are not allowed")
  service_types_from clusters (insert cluster count freq) rest

-- validateSlicegatewayServiceType
unfoldable pub validate_slicegateway_service_type : SliceConfig → Outcome (Unit {0})
unfolding service_types_from
validate_slicegateway_service_type slice = elim slice.spec.slice_gateway_provider [
  | none ↦ err (
      field
        (required "Spec.SliceGatewayProvider" "SliceGatewayProvider is required for slice config"))
  | some provider ↦ service_types_from slice.spec.clusters [] provider.slice_gateway_service_type
]

abbrev is_some {ℓ} : {A : Type ℓ} → Option A → Bool
is_some none = false
is_some (some a) = true

-- `details != nil && details.BandwidthCeilingKbps < details.BandwidthGuaranteedKbps`
abbrev over_guaranteed : Option QosProfile → Bool
over_guaranteed none = false
over_guaranteed (some q) = ltb q.bandwidth_ceiling_kbps q.bandwidth_guaranteed_kbps

-- checkIfQoSConfigExists
unfoldable pub check_if_qos_config_exists : {W : Type 0} → Platform W → W → String → String → Bool
check_if_qos_config_exists platform w namespace name =
    is_some (exists? platform.slice_qos_configs (record { namespace = namespace; name = name }) w)

-- validateQosProfile
unfoldable pub validate_qos_profile :
    {W : Type 0} → Platform W → W → SliceConfig → Outcome (Unit {0})
validate_qos_profile platform w slice = do
  let name = slice.spec.standard_qos_profile_name
  let details = slice.spec.qos_profile_details
  reject_if (not (name == "") && is_some details) (
      invalid "Spec.StandardQosProfileName"
        "StandardQosProfileName cannot be set when QosProfileDetails is set")
  reject_if (name == "" && not (is_some details)) (
      invalid "Spec.StandardQosProfileName"
        "Either StandardQosProfileName or QosProfileDetails is required")
  reject_if
      (not (name == "")
        && not (check_if_qos_config_exists platform w slice.metadata.namespace name))
      (invalid "Spec.StandardQosProfileName" "SliceQoSConfig not found.")
  reject_if (over_guaranteed details) (
      invalid "Spec.QosProfileDetails.BandwidthGuaranteedKbps"
        "BandwidthGuaranteedKbps cannot be greater than BandwidthCeilingKbps")

abbrev external_path : String
external_path = "Spec.ExternalGatewayConfig.Clusters"

-- The inner loop of validateExternalGatewayConfig.
unfoldable pub external_clusters : List String → List String → Outcome (Unit {0})
external_clusters participating [] = ok tt
external_clusters participating (cluster ∷ rest) = do
  reject_if (not (cluster == "*") && not (contains_string participating cluster))
      (invalid external_path "cluster is not participating in slice config")
  external_clusters participating rest

-- The outer loop: the number of entries with a star, and all clusters named so far.
unfoldable pub external_from :
    List String → ℕ → List String → List ExternalGatewayConfig → Outcome (ℕ × List String)
external_from participating count all_clusters [] = ok (count, all_clusters)
external_from participating count all_clusters (config ∷ rest) = do
  let star = contains_string config.clusters "*"
  reject_if (star && ltb 1 (length config.clusters))
      (invalid external_path "other clusters are not allowed when * is present")
  external_clusters participating config.clusters
  external_from participating (elim star [ true ↦ count + 1 | false ↦ count ])
      (all_clusters ++ config.clusters) rest

-- validateExternalGatewayConfig
unfoldable pub validate_external_gateway_config : SliceConfig → Outcome (Unit {0})
unfolding external_from external_clusters
validate_external_gateway_config slice = do
  (count, all_clusters) ← external_from slice.spec.clusters 0 [] slice.spec.external_gateway_config
  reject_if (ltb 1 count)
      (invalid external_path "* is not allowed in more than one external gateways")
  let (dup, value) = check_duplicate_in_array all_clusters
  reject_if dup (duplicate external_path (join value ", "))
