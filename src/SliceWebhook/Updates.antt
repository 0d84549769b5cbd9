-- ===== src/SliceWebhook/Updates.antt =====
-- What an update of a slice may not change, and the VPN rotation settings that it writes
-- (service/slice_config_webhook_validation.go, getSliceGwSvcTypes of service/service_helper.go).
use kubeslice_controller.Common.{
  ℕ, ◌+◌, ◌-◌, ◌*◌, String, Bool, true, false, not, ◌&&◌, ◌||◌, List, [], ◌∷◌, Option, none, some,
  Map, lookup, insert, ◌==◌, ◌=?◌, ltb, length, if◌then◌else◌,
}
use kubeslice_controller.Go.{
  invalid, forbidden, Outcome, ok, err, panic, reject_if, for_each, field, ◌>>◌,
}
use kubeslice_controller.Resources.Slice.{
  SliceConfig, SliceGatewayServiceType, WorkerSliceGatewayProvider, VpnConfiguration,
}
use kubeslice_controller.Resources.Rotation.{VpnKeyRotation, StatusOfKeyRotation, complete}
use kubeslice_controller.Util.Arrays.{contains_string}

abbrev pub default_slice_gateway_service_type : String
default_slice_gateway_service_type = "NodePort"

abbrev pub default_slice_gateway_service_protocol : String
default_slice_gateway_service_protocol = "UDP"

-- The loop over the slice's clusters for the entry of a star.
abbrev insert_each :
    SliceGatewayServiceType
    → List String
    → Map SliceGatewayServiceType
    → Map SliceGatewayServiceType
insert_each entry [] m = m
insert_each entry (cluster ∷ rest) m = insert_each entry rest (insert cluster entry m)

unfoldable service_type_map :
    List String
    → List SliceGatewayServiceType
    → Map SliceGatewayServiceType
    → Map SliceGatewayServiceType
service_type_map clusters [] m = m
service_type_map clusters (entry ∷ rest) m =
    service_type_map clusters rest
      (if entry.cluster == "*" then insert_each entry clusters m else insert entry.cluster entry m)

-- getSliceGwSvcTypes
unfoldable pub get_slice_gw_svc_types : SliceConfig → Map SliceGatewayServiceType
unfolding service_type_map
get_slice_gw_svc_types slice = elim slice.spec.slice_gateway_provider [
  | none ↦ []
  | some provider ↦ service_type_map slice.spec.clusters provider.slice_gateway_service_type []
]

service_type_path : String
service_type_path = "Spec.SliceGatewayProvider.SliceGatewayServiceType"

-- The type and the protocol of an entry against those of the cluster's old entry.
unfoldable pub service_type_unchanged :
    Option SliceGatewayServiceType → Bool → SliceGatewayServiceType → Outcome (Unit {0})
unfolding service_type_path
service_type_unchanged none was_participating new =
    reject_if (was_participating && not (new.protocol == default_slice_gateway_service_protocol))
      (forbidden service_type_path "updating gateway protocol is not allowed")
service_type_unchanged (some old_type) was_participating new = do
  reject_if
      (not (old_type.service_type == default_slice_gateway_service_type)
        && not (new.service_type == old_type.service_type))
      (forbidden service_type_path "updating gateway service type is not allowed")
  reject_if (not (new.protocol == old_type.protocol))
      (forbidden service_type_path "updating gateway protocol is not allowed")

-- The provider's type and CA, which are compared where both configurations have a provider.
unfoldable pub provider_unchanged :
    Option WorkerSliceGatewayProvider → Option WorkerSliceGatewayProvider → Outcome (Unit {0})
provider_unchanged none new = ok tt
provider_unchanged (some old) none = ok tt
provider_unchanged (some old) (some new) = do
  reject_if (not (old.slice_gateway_type == new.slice_gateway_type))
      (invalid "Spec.SliceGatewayProvider.SliceGatewayType" "cannot be updated")
  reject_if (not (old.slice_ca_type == new.slice_ca_type))
      (invalid "Spec.SliceGatewayProvider.SliceCaType" "cannot be updated")

-- The cipher; the new configuration's pointer is not tested.
unfoldable pub cipher_unchanged :
    Option VpnConfiguration → Option VpnConfiguration → Outcome (Unit {0})
cipher_unchanged none new = ok tt
cipher_unchanged (some old) none = panic
cipher_unchanged (some old) (some new) =
    reject_if (not (old.cipher == new.cipher)) (invalid "Spec.VPNConfig.Cipher" "cannot be updated")

-- The entries of the new provider, if there is one.
abbrev pub new_service_types : Option WorkerSliceGatewayProvider → List SliceGatewayServiceType
new_service_types none = []
new_service_types (some provider) = provider.slice_gateway_service_type

-- preventUpdate
unfoldable pub prevent_update : SliceConfig → SliceConfig → Outcome (Unit {0})
unfolding get_slice_gw_svc_types service_type_unchanged provider_unchanged cipher_unchanged
prevent_update slice old = do
  reject_if (not (old.spec.slice_subnet == slice.spec.slice_subnet))
      (invalid "Spec.SliceSubnet" "cannot be updated")
  reject_if (not (old.spec.slice_type == slice.spec.slice_type))
      (invalid "Spec.SliceType" "cannot be updated")
  provider_unchanged old.spec.slice_gateway_provider slice.spec.slice_gateway_provider
  reject_if (not (old.spec.slice_ipam_type == slice.spec.slice_ipam_type))
      (invalid "Spec.SliceIpamType" "cannot be updated")
  cipher_unchanged old.spec.vpn_config slice.spec.vpn_config
  for_each (new_service_types slice.spec.slice_gateway_provider) (λ new.
      service_type_unchanged (lookup new.cluster (get_slice_gw_svc_types old))
        (contains_string old.spec.clusters new.cluster) new)

-- validateMaxClusterCount; a negative number, which ℕ does not hold, is rejected with those below 2.
unfoldable pub validate_max_cluster_count : SliceConfig → Outcome (Unit {0})
validate_max_cluster_count slice = do
  reject_if (ltb slice.spec.max_clusters 2 || ltb 32 slice.spec.max_clusters)
      (invalid "Spec.MaxClusterCount" "MaxClusterCount cannot be less than 2 or greater than 32.")
  reject_if (ltb slice.spec.max_clusters (length slice.spec.clusters))
      (invalid "Spec.Clusters" "participating clusters cannot be greater than MaxClusterCount")

-- preventMaxClusterCountUpdate
unfoldable pub prevent_max_cluster_count_update : SliceConfig → SliceConfig → Outcome (Unit {0})
prevent_max_cluster_count_update slice old = do
  reject_if (not (slice.spec.max_clusters =? old.spec.max_clusters))
      (invalid "Spec.MaxClusterCount" "MaxClusterCount cannot be updated.")
  reject_if (ltb slice.spec.max_clusters (length slice.spec.clusters))
      (invalid "Spec.Clusters" "participating clusters cannot be greater than MaxClusterCount")

-- Equality of two times that may be nil.
abbrev pub same_time : Option ℕ → Option ℕ → Bool
same_time none none = true
same_time none (some t) = false
same_time (some s) none = false
same_time (some s) (some t) = s =? t

-- `AddDate(0, 0, days).Add(-1 * time.Hour)`: a day has 86400 seconds in UTC.
abbrev pub expiry_after : ℕ → ℕ → ℕ
expiry_after creation days = creation + days * 86400 - 3600

-- The object that the Get leaves: empty where it found nothing.
abbrev pub rotation_or_empty : Option VpnKeyRotation → VpnKeyRotation
rotation_or_empty (some rotation) = rotation
rotation_or_empty none = record {
  metadata = record {
    name = "";
    namespace = "";
    labels = [];
    annotations = [];
    finalizers = [];
    owner_references = [];
    deletion_timestamp = none;
  };
  spec = record {
    slice_name = "";
    cluster_gateway_mapping = [];
    certificate_creation_time = none;
    certificate_expiry_time = none;
    rotation_interval = 0;
    clusters = [];
    rotation_count = 0;
  };
  current_rotation_state = [];
}

-- An error of the update call becomes a field error.
abbrev pub forbidden_on_error : {W : Type 0} → Outcome (Unit {0}) × W → Outcome (Unit {0}) × W
forbidden_on_error (ok u, w) = (ok tt, w)
forbidden_on_error (err e, w) = (
  err (field (forbidden "Field: RenewBefore" "Failed to Update Renewal Time, Please try again!")),
  w,
)
forbidden_on_error (panic, w) = (panic, w)

abbrev pub with_expiry : VpnKeyRotation → Option ℕ → VpnKeyRotation
with_expiry rotation expiry = record rotation {
  spec = record rotation.spec { certificate_expiry_time = expiry };
}

abbrev pub with_interval : VpnKeyRotation → ℕ → Option ℕ → VpnKeyRotation
with_interval rotation interval expiry = record rotation {
  spec = record rotation.spec { rotation_interval = interval; certificate_expiry_time = expiry };
}

-- The pairs of a Go map, read in the order of the list.
abbrev pub check_complete : String × StatusOfKeyRotation → Outcome (Unit {0})
check_complete (gateway, status) =
    reject_if (not (status.status == complete))
      (forbidden "Field: RenewBefore" "Certs Renewal status is not in Complete state")
