-- ===== src/SliceWebhook/Handlers.antt =====
-- The handlers of the slice's admission webhook (service/slice_config_webhook_validation.go).
use kubeslice_controller.Common.{Bool, true, false, not, ◌&&◌}
use kubeslice_controller.Go.{forbidden, Outcome, ok, reject_if, ◌>>◌}
use kubeslice_controller.Go.Effect as Effect
use kubeslice_controller.Go.Effect.{M}
use kubeslice_controller.Resources.Slice.{
  SliceConfig, NetworkType, single_network, multi_network, no_network,
}
use kubeslice_controller.Platform.{Platform}
use kubeslice_controller.SliceWebhook.Network.{
  validate_slice_subnet, validate_slicegateway_service_type, validate_qos_profile,
  validate_external_gateway_config,
}
use kubeslice_controller.SliceWebhook.Isolation.{
  validate_application_namespaces, validate_allowed_namespaces,
  validate_namespace_isolation_profile,
}
use kubeslice_controller.SliceWebhook.Clusters.{
  has_network, validate_project_namespace, validate_clusters_on_create, validate_clusters_on_update,
  check_namespace_deboarding_status, validate_if_service_export_config_exists,
}
use kubeslice_controller.SliceWebhook.Updates.{
  prevent_update, validate_max_cluster_count, prevent_max_cluster_count_update,
}
use kubeslice_controller.SliceWebhook.Rotation.{validate_renew_now, validate_rotation_interval}

-- `if test { … }` around a block that may return an error
unfoldable pub when : Bool → Outcome (Unit {0}) → Outcome (Unit {0})
when true block = block
when false block = ok tt

abbrev pub same_mode : NetworkType → NetworkType → Bool
same_mode single_network single_network = true
same_mode multi_network multi_network = true
same_mode no_network no_network = true
same_mode _ _ = false

module _ {W : Type 0} (platform : Platform W) (w : W) (slice : SliceConfig) where
  -- The block for the overlay network, the same on creation and on update but for one check.
  unfoldable pub validate_overlay : Outcome (Unit {0}) → Outcome (Unit {0})
  validate_overlay max_clusters_check = do
    validate_slice_subnet platform slice
    max_clusters_check
    validate_slicegateway_service_type slice
    validate_qos_profile platform w slice
    validate_external_gateway_config slice

  -- ValidateSliceConfigCreate
  unfoldable pub validate_slice_config_create : Outcome (Unit {0})
  validate_slice_config_create = do
    validate_project_namespace platform w slice
    validate_clusters_on_create platform w slice
    validate_application_namespaces platform w slice
    validate_allowed_namespaces slice
    validate_namespace_isolation_profile slice
    validate_max_cluster_count slice
    when (has_network slice.spec.overlay_network_deployment_mode) (validate_overlay (ok tt))

  -- The part of ValidateSliceConfigUpdate that writes nothing.
  unfoldable pub validate_slice_config_change : SliceConfig → Outcome (Unit {0})
  validate_slice_config_change old = do
    let transitioning = not (
        same_mode slice.spec.overlay_network_deployment_mode
          old.spec.overlay_network_deployment_mode)
    reject_if (transitioning && has_network old.spec.overlay_network_deployment_mode)
        (forbidden "Spec.OverlayNetworkDeploymentMode" "Slice cannot be transitioned")
    when (not transitioning) (prevent_update slice old)
    validate_clusters_on_update platform w slice old
    validate_application_namespaces platform w slice
    validate_allowed_namespaces slice
    validate_namespace_isolation_profile slice
    when (has_network slice.spec.overlay_network_deployment_mode)
        (validate_overlay (when (not transitioning) (prevent_max_cluster_count_update slice old)))

  -- ValidateSliceConfigDelete
  unfoldable validate_slice_config_delete : Outcome (Unit {0})
  validate_slice_config_delete = do
    check_namespace_deboarding_status platform w slice
    validate_if_service_export_config_exists platform w slice

-- ValidateSliceConfigUpdate: its last two checks, of an overlay network, write.
unfoldable pub validate_slice_config_update :
    {W : Type 0} → Platform W → SliceConfig → SliceConfig → M W (Unit {0})
validate_slice_config_update platform slice old w =
    Effect.resume (validate_slice_config_change platform w slice old, w)
      (λ u. elim (has_network slice.spec.overlay_network_deployment_mode) [
        | false ↦ Effect.pure tt
        | true ↦
            Effect.◌>>◌ (validate_renew_now platform slice old)
              (validate_rotation_interval platform slice old)
      ])
