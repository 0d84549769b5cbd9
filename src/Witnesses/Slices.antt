-- ===== src/Witnesses/Slices.antt =====
-- The theorems on the webhook of slices at concrete inputs.
use kubeslice_controller.Witnesses.Data.{gateway, server, slice, provider}
use kubeslice_controller.Common.{
  ◌≡◌, refl, ◌↔◌, true, List, [], ◌∷◌, some, lookup, insert, All, IsDistinct,
}
use kubeslice_controller.Go.{ok, for_each}
use kubeslice_controller.Go.Text.{itoa, atoi, split, join}
use kubeslice_controller.Go.Net.{parse_cidr, is_private, network, contains_ip}
use kubeslice_controller.Resources.Slice.{SliceConfig, WorkerSliceGatewayProvider}
use kubeslice_controller.Platform.{get_resource_if_exist, exists?}
use kubeslice_controller.Util.Arrays.{
  contains_string, check_duplicate_in_array, difference_of_array,
}
use kubeslice_controller.Util.Subnets.{
  is_private_subnet, has_prefix, has_last_two_octets_zero, overlap_ip,
}
use kubeslice_controller.Util.Projects.{get_project_name, check_for_project_namespace}
use kubeslice_controller.Resources.Slice.{ExternalGatewayConfig}
use kubeslice_controller.SliceWebhook.ExternalGateways.{
  IsGatewayCluster, clusters_of_gateways, StarIsAlone, validate_external_gateway_config_lem,
}
use kubeslice_controller.SliceWebhook.Network.{
  validate_slice_subnet, validate_slicegateway_service_type, validate_qos_profile,
  validate_external_gateway_config,
}
use kubeslice_controller.SliceWebhook.Isolation.{
  validate_granted_cluster_namespaces, validate_application_namespaces, validate_allowed_namespaces,
  is_namespace_name, validate_selected_clusters, application_selections, allowed_selections,
  validate_namespace_isolation_profile,
}
use kubeslice_controller.SliceWebhook.Clusters.{
  validate_project_namespace, validate_clusters_on_create, validate_clusters_on_update,
}
use kubeslice_controller.SliceWebhook.Updates.{
  prevent_update, validate_max_cluster_count, prevent_max_cluster_count_update,
}
use kubeslice_controller.SliceWebhook.Rotation.{validate_renew_now, validate_rotation_interval}
use kubeslice_controller.SliceWebhook.Handlers.{
  when, validate_overlay, validate_slice_config_create, validate_slice_config_change,
  validate_slice_config_update,
}
use kubeslice_controller.SliceWebhook.ServiceTypes.{
  IsEntry, clusters_of_entries, validate_slicegateway_service_type_iff,
}
use kubeslice_controller.SliceWebhook.Admission.{
  IsInProject, UsableCluster, IsWithinBounds, IsOverlay, validate_slice_config_create_lem,
}
use kubeslice_controller.SliceWebhook.History.{created, updated, IsSound, History-IsSound}

accepted : validate_slice_config_create server 0 (slice ("west" ∷ [])) ≡ ok tt
unfolding validate_slice_config_create validate_project_namespace validate_clusters_on_create
    validate_application_namespaces validate_allowed_namespaces validate_namespace_isolation_profile
    validate_max_cluster_count validate_overlay validate_slice_subnet
    validate_slicegateway_service_type validate_qos_profile validate_external_gateway_config when
    exists? get_resource_if_exist for_each check_duplicate_in_array contains_string
    is_private_subnet has_prefix has_last_two_octets_zero overlap_ip parse_cidr is_private network
    contains_ip split atoi itoa join get_project_name check_for_project_namespace
    validate_granted_cluster_namespaces is_namespace_name validate_selected_clusters
    application_selections allowed_selections lookup insert
accepted = refl

accepted_update :
    validate_slice_config_update server (slice ("west" ∷ "east" ∷ [])) (slice ("west" ∷ [])) 0
    ≡ (ok tt, 0)
unfolding validate_slice_config_update validate_slice_config_change prevent_update
    validate_clusters_on_update prevent_max_cluster_count_update validate_renew_now
    validate_rotation_interval difference_of_array validate_application_namespaces
    validate_allowed_namespaces validate_namespace_isolation_profile validate_overlay
    validate_slice_subnet validate_slicegateway_service_type validate_qos_profile
    validate_external_gateway_config when exists? get_resource_if_exist for_each
    check_duplicate_in_array contains_string is_private_subnet has_prefix has_last_two_octets_zero
    overlap_ip parse_cidr is_private network contains_ip split atoi itoa join get_project_name
    validate_granted_cluster_namespaces is_namespace_name validate_selected_clusters
    application_selections allowed_selections lookup insert
accepted_update = refl

validate_slice_config_create_example :
    IsInProject server 0 (slice ("west" ∷ []))
    × IsDistinct ("west" ∷ [])
    × All (UsableCluster server 0 (slice ("west" ∷ []))) ("west" ∷ [])
    × IsWithinBounds (slice ("west" ∷ []))
    × (true ≡ true → IsOverlay server 0 (slice ("west" ∷ [])))
validate_slice_config_create_example =
    validate_slice_config_create_lem server 0 (slice ("west" ∷ [])) accepted

IsSound_example : IsSound (slice ("west" ∷ [])) (slice ("west" ∷ "east" ∷ []))
IsSound_example =
    History-IsSound server 0 (slice ("west" ∷ [])) (slice ("west" ∷ "east" ∷ [])) accepted refl
      (updated (slice ("west" ∷ "east" ∷ [])) 0 0 accepted_update (created refl))

service_type_example : (validate_slicegateway_service_type (slice ("west" ∷ [])) ≡ ok tt) ↔ (
    (p : WorkerSliceGatewayProvider) × (some provider ≡ some p)
    × IsDistinct (clusters_of_entries p.slice_gateway_service_type)
    × All (IsEntry ("west" ∷ [])) (clusters_of_entries p.slice_gateway_service_type))
service_type_example = validate_slicegateway_service_type_iff (slice ("west" ∷ []))

-- The slice with two external gateways.
abbrev gateways : List ExternalGatewayConfig
gateways = gateway ("west" ∷ []) ∷ gateway ("east" ∷ []) ∷ []

abbrev with_gateways : SliceConfig
with_gateways =
    let s = slice ("west" ∷ "east" ∷ []) in
    record s { spec = record s.spec { external_gateway_config = gateways } }

gateways_accepted : validate_external_gateway_config with_gateways ≡ ok tt
unfolding validate_external_gateway_config contains_string check_duplicate_in_array
gateways_accepted = refl

external_gateway_example :
    All (IsGatewayCluster ("west" ∷ "east" ∷ [])) (clusters_of_gateways gateways)
    × IsDistinct (clusters_of_gateways gateways)
    × All StarIsAlone gateways
external_gateway_example = validate_external_gateway_config_lem with_gateways gateways_accepted
