-- ===== src/KeyRotation/Outer.antt =====
-- CreateMinimalVpnKeyRotationConfig, ReconcileClusters and ReconcileVpnKeyRotation of
-- service/vpn_key_rotation_service.go.
pub mod Aligned
use kubeslice_controller.Common.{
  ℕ, String, Bool, true, false, not, ◌&&◌, ◌||◌, List, [], ◌∷◌, ◌++◌, map, Option, none, some, Map,
  lookup, all, ◌==◌, ◌=?◌, ◌==ₗ◌,
}
use kubeslice_controller.Common.Int.{ℤ, pos, negsuc, sub_ℕ}
use kubeslice_controller.Go.{message, Outcome, ok, err, panic}
use kubeslice_controller.Go.Effect.{M, ◌>>=◌, ◌>>◌, pure, asks}
use kubeslice_controller.Go.Text.{◌<>◌}
use kubeslice_controller.Resources.Meta.{Key, named}
use kubeslice_controller.Resources.Slice.{SliceConfig}
use kubeslice_controller.Resources.Rotation.{VpnKeyRotation}
use kubeslice_controller.Platform.{
  Platform, get_resource_if_exist, create_resource, update_resource,
}
use kubeslice_controller.Util.Reconciliation.{Result, done}
use kubeslice_controller.KeyRotation.Services.{Services, World}
use kubeslice_controller.KeyRotation.Certificates.{construct_cluster_gateway_mapping}
use kubeslice_controller.KeyRotation.Reconcile.{on_api, reconcile_vpn_key_rotation_config}

abbrev pub same_gateways : Option (List String) → Option (List String) → Bool
same_gateways none none = true
same_gateways (some xs) (some ys) = xs ==ₗ ys
same_gateways _ _ = false

abbrev pub key_of_entry : String × List String → String
key_of_entry entry = entry.0

-- `reflect.DeepEqual` of two maps: each key of either has one value in both.
abbrev pub same_mapping : Map (List String) → Map (List String) → Bool
same_mapping m n =
    all (λ key. same_gateways (lookup key m) (lookup key n))
      (map key_of_entry m ++ map key_of_entry n)

-- Whether the rotation deviates from the slice's configuration and gateways.
unfoldable pub deviates : Map (List String) → SliceConfig → VpnKeyRotation → Bool
deviates mapping slice rotation =
    not (same_mapping rotation.spec.cluster_gateway_mapping mapping)
    || (not (rotation.spec.rotation_interval =? slice.spec.rotation_interval)
        || (not (rotation.spec.slice_name == slice.metadata.name)
            || not (rotation.spec.clusters ==ₗ slice.spec.clusters)))

-- The rotation with the fields that deviate set; a field that does not is equal already.
unfoldable pub aligned : Map (List String) → SliceConfig → VpnKeyRotation → VpnKeyRotation
aligned mapping slice rotation = record rotation {
  spec = record rotation.spec {
    cluster_gateway_mapping = mapping;
    rotation_interval = slice.spec.rotation_interval;
    slice_name = slice.metadata.name;
    clusters = slice.spec.clusters;
  };
}

-- A new rotation.
abbrev new_rotation : (slice_name namespace : String) → ℕ → VpnKeyRotation
new_rotation slice_name namespace interval = record {
  metadata = named slice_name namespace (("kubeslice-slice", slice_name) ∷ []);
  spec = record {
    slice_name = slice_name;
    cluster_gateway_mapping = [];
    certificate_creation_time = none;
    certificate_expiry_time = none;
    rotation_interval = interval;
    clusters = [];
    rotation_count = 1;
  };
  current_rotation_state = [];
}

abbrev with_clusters : List String → VpnKeyRotation → VpnKeyRotation
with_clusters clusters rotation = record rotation {
  spec = record rotation.spec { clusters = clusters };
}

module _ {W : Type 0} (platform : Platform W) where
  abbrev find_rotation : (slice_name namespace : String) → M W (Option VpnKeyRotation)
  find_rotation slice_name namespace = asks (
      get_resource_if_exist platform.vpn_key_rotations
        (record { namespace = namespace; name = slice_name }))

  abbrev create_unless_found :
      (slice_name namespace : String) → ℕ → Option VpnKeyRotation → M W (Unit {0})
  create_unless_found slice_name namespace interval (some rotation) = pure tt
  create_unless_found slice_name namespace interval none =
      create_resource platform.vpn_key_rotations (new_rotation slice_name namespace interval)

  -- CreateMinimalVpnKeyRotationConfig
  unfoldable pub create_minimal_vpn_key_rotation_config :
      (slice_name namespace : String) → ℕ → M W (Unit {0})
  create_minimal_vpn_key_rotation_config slice_name namespace interval =
      find_rotation slice_name namespace >>= create_unless_found slice_name namespace interval

  -- Of a rotation that is found; what is returned for tests is left out.
  abbrev write_clusters : List String → Option VpnKeyRotation → M W (Unit {0})
  write_clusters clusters none = pure tt
  write_clusters clusters (some rotation) = elim (rotation.spec.clusters ==ₗ clusters) [
    | true ↦ pure tt
    | false ↦ update_resource platform.vpn_key_rotations (with_clusters clusters rotation)
  ]

  -- ReconcileClusters
  unfoldable pub reconcile_clusters : (slice_name namespace : String) → List String → M W (Unit {0})
  reconcile_clusters slice_name namespace clusters =
      find_rotation slice_name namespace >>= write_clusters clusters

  abbrev slice_or_error : String → Option SliceConfig → Outcome SliceConfig
  slice_or_error name (some slice) = ok slice
  slice_or_error name none = err (message ("sliceconfig " <> name <> " not found"))

  -- getSliceConfig
  unfoldable get_slice_config : (name namespace : String) → M W SliceConfig
  get_slice_config name namespace = do
    found ← asks (
        get_resource_if_exist platform.slice_configs
          (record { namespace = namespace; name = name }))
    asks (λ w. slice_or_error name found)

  -- `set_controller_reference` is controllerutil.SetControllerReference.
  module _ (services : Services W)
      (set_controller_reference : SliceConfig → VpnKeyRotation → Outcome VpnKeyRotation) where
    abbrev owned : SliceConfig → VpnKeyRotation → Outcome VpnKeyRotation
    owned slice rotation = elim rotation.metadata.owner_references [
      | [] ↦ set_controller_reference slice rotation
      | ◌∷◌ x xs ↦ ok rotation
    ]

    -- The time that is left until the certificates expire.
    abbrev until_expiry : VpnKeyRotation → World W → Outcome Result
    until_expiry rotation v = elim rotation.spec.certificate_expiry_time [
      | none ↦ panic
      | some t ↦ ok (record { requeue = false; requeue_after = sub_ℕ t (platform.now v.api) })
    ]

    abbrev unless_nil : Option VpnKeyRotation → M (World W) Result
    unless_nil none = pure done
    unless_nil (some next) = asks (until_expiry next)

    abbrev when_to_requeue : Result × Option VpnKeyRotation → M (World W) Result
    when_to_requeue (result, next) = elim result.requeue_after [
      | pos n ↦ elim (n =? 0) [ true ↦ unless_nil next | false ↦ pure result ]
      | negsuc n ↦ unless_nil next
    ]

    abbrev align_or_rotate : Map (List String) → SliceConfig → VpnKeyRotation → M (World W) Result
    align_or_rotate mapping slice rotation = elim (deviates mapping slice rotation) [
      | true ↦
          on_api (update_resource platform.vpn_key_rotations (aligned mapping slice rotation))
          >> pure (record { requeue = true; requeue_after = pos 0 })
      | false ↦
          reconcile_vpn_key_rotation_config platform services rotation slice >>= when_to_requeue
    ]

    abbrev reconcile_found : (name namespace : String) → Option VpnKeyRotation → M (World W) Result
    reconcile_found name namespace none = pure done
    reconcile_found name namespace (some found) = do
      slice ← on_api (get_slice_config name namespace)
      rotation ← asks (λ v. owned slice found)
      mapping ← on_api (construct_cluster_gateway_mapping platform slice)
      align_or_rotate mapping slice rotation

    -- ReconcileVpnKeyRotation
    unfoldable reconcile_vpn_key_rotation : (name namespace : String) → M (World W) Result
    unfolding get_slice_config deviates aligned
    reconcile_vpn_key_rotation name namespace =
        on_api (find_rotation name namespace) >>= reconcile_found name namespace
