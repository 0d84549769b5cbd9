-- ===== src/SliceWebhook/Rotation.antt =====
-- The checks of an update of a slice that write its VpnKeyRotation
-- (service/slice_config_webhook_validation.go).
use kubeslice_controller.Common.{ℕ, true, false, not, Option, none, some, ◌=?◌, ltb}
use kubeslice_controller.Go.{
  forbidden, Outcome, ok, err, panic, reject_if, deref, for_each, ◌>>=◌, ◌>>◌,
}
use kubeslice_controller.Go.Effect.{M}
use kubeslice_controller.Resources.Meta.{Key}
use kubeslice_controller.Resources.Slice.{SliceConfig}
use kubeslice_controller.Resources.Rotation.{VpnKeyRotation}
use kubeslice_controller.Platform.{Platform, exists?, update_resource}
use kubeslice_controller.SliceWebhook.Updates.{
  same_time, expiry_after, rotation_or_empty, forbidden_on_error, with_expiry, with_interval,
  check_complete,
}

abbrev key_of_slice : SliceConfig → Key
key_of_slice slice = record { namespace = slice.metadata.namespace; name = slice.metadata.name }

-- The tests of validateRenewNowInSliceConfig before its write; their result is the new expiry.
unfoldable renewal_allowed : ℕ → SliceConfig → VpnKeyRotation → Outcome ℕ
renewal_allowed now slice rotation = do
  for_each rotation.current_rotation_state check_complete
  renew_before ← deref slice.spec.renew_before
  reject_if (not (ltb renew_before now))
      (forbidden "Field: RenewBefore" "Renewal Time inappropriate for sliceconfig")
  ok renew_before

module _ {W : Type 0} (platform : Platform W) where
  abbrev renew_with : VpnKeyRotation → Outcome ℕ → M W (Unit {0})
  renew_with rotation (ok expiry) w =
      forbidden_on_error
        (update_resource platform.vpn_key_rotations (with_expiry rotation (some expiry)) w)
  renew_with rotation (err e) w = (err e, w)
  renew_with rotation panic w = (panic, w)

  -- validateRenewNowInSliceConfig
  unfoldable pub validate_renew_now : SliceConfig → SliceConfig → M W (Unit {0})
  unfolding renewal_allowed
  validate_renew_now slice old w =
      let rotation =
        rotation_or_empty (exists? platform.vpn_key_rotations (key_of_slice slice) w) in
      elim (same_time slice.spec.renew_before old.spec.renew_before) [
        | true ↦ (ok tt, w)
        | false ↦ renew_with rotation (renewal_allowed (platform.now w) slice rotation) w
      ]

  abbrev reschedule : ℕ → Option VpnKeyRotation → M W (Unit {0})
  reschedule interval none w = (ok tt, w)
  reschedule interval (some rotation) w = elim rotation.spec.certificate_creation_time [
    | none ↦ (panic, w)
    | some creation ↦ forbidden_on_error (
        update_resource platform.vpn_key_rotations
          (with_interval rotation interval (some (expiry_after creation interval))) w)
  ]

  -- validateRotationIntervalInSliceConfig. The creation time is read through its pointer.
  unfoldable pub validate_rotation_interval : SliceConfig → SliceConfig → M W (Unit {0})
  validate_rotation_interval slice old w =
      elim (slice.spec.rotation_interval =? old.spec.rotation_interval) [
        | true ↦ (ok tt, w)
        | false ↦
            reschedule slice.spec.rotation_interval
              (exists? platform.vpn_key_rotations (key_of_slice slice) w) w
      ]
