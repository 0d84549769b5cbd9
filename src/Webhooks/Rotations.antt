-- ===== src/Webhooks/Rotations.antt =====
-- service/vpn_key_rotation_webhook_validation.go
use kubeslice_controller.Common.{
  ℕ, String, ◌≡◌, refl, sym, ap, ◌∙◌, ◌↔◌, ◌⊎◌, inl, inr, true, false, Bool, not, Option, none,
  some, ◌==◌,
}
use kubeslice_controller.Go.{message, Outcome, ok, err, panic}
use kubeslice_controller.Go.Effect.{M, ◌>>=◌, ◌>>◌, pure, throw, asks, resume}
use kubeslice_controller.Go.Text.{◌<>◌}
use kubeslice_controller.Resources.Slice.{SliceConfig}
use kubeslice_controller.Resources.Rotation.{VpnKeyRotation}
use kubeslice_controller.Platform.{Platform, get_resource_if_exist}

module _ {W : Type 0} (platform : Platform W) where
  abbrev find_slice : VpnKeyRotation → M W (Option SliceConfig)
  find_slice rotation = asks (
      get_resource_if_exist platform.slice_configs
        (record { namespace = rotation.metadata.namespace; name = rotation.spec.slice_name }))

  abbrev refuse_if : Bool → String → M W (Unit {0})
  refuse_if true text = throw (message text)
  refuse_if false text = pure tt

  abbrev refuse_unless_found : String → Option SliceConfig → M W (Unit {0})
  refuse_unless_found name none =
      throw (message ("invalid config, sliceconfig " <> name <> " not present"))
  refuse_unless_found name (some slice) = pure tt

  -- ValidateVpnKeyRotationCreate
  unfoldable validate_vpn_key_rotation_create : VpnKeyRotation → M W (Unit {0})
  validate_vpn_key_rotation_create rotation = do
    refuse_if (rotation.spec.slice_name == "") "invalid config,.spec.sliceName could not be empty"
    refuse_if (not (rotation.metadata.name == rotation.spec.slice_name))
        "invalid config, name should match with slice name"
    found ← find_slice rotation
    refuse_unless_found rotation.spec.slice_name found

  -- A slice that is there and not being deleted keeps its rotation; the attempt is an event.
  abbrev refuse_unless_deleting : VpnKeyRotation → Option ℕ → M W (Unit {0})
  refuse_unless_deleting rotation (some t) = pure tt
  refuse_unless_deleting rotation none = λ w. (
    err (
        message (
          "vpnkeyrotation config " <> rotation.metadata.name
          <> " not allowed to delete unless sliceconfig is deleted")),
    platform.record_event "EventIllegalVPNKeyRotationConfigDelete" rotation.metadata.name w,
  )

  abbrev refuse_if_in_use : VpnKeyRotation → Option SliceConfig → M W (Unit {0})
  refuse_if_in_use rotation none = pure tt
  refuse_if_in_use rotation (some slice) =
      refuse_unless_deleting rotation slice.metadata.deletion_timestamp

  -- ValidateVpnKeyRotationDelete
  unfoldable validate_vpn_key_rotation_delete : VpnKeyRotation → M W (Unit {0})
  validate_vpn_key_rotation_delete rotation = find_slice rotation >>= refuse_if_in_use rotation

  -- The slice of a rotation is gone, or it is being deleted.
  abbrev IsReleased : VpnKeyRotation → W → Type 0
  IsReleased rotation w =
      ((find_slice rotation w).0 ≡ ok none)
      ⊎ ((slice : SliceConfig) × (t : ℕ) × ((find_slice rotation w).0 ≡ ok (some slice))
          × (slice.metadata.deletion_timestamp ≡ some t))

  -- The webhook lets a rotation be deleted exactly when its slice is not there or is being deleted.
  validate_vpn_key_rotation_delete_iff :
      (rotation : VpnKeyRotation) (w : W)
      → ((validate_vpn_key_rotation_delete rotation w).0 ≡ ok tt) ↔ IsReleased rotation w
  unfolding validate_vpn_key_rotation_delete
  validate_vpn_key_rotation_delete_iff rotation w = go (find_slice rotation w).0
    where
      on_slice :
          (t : Option ℕ)
          → ((refuse_unless_deleting rotation t w).0 ≡ ok tt) ↔ ((u : ℕ) × (t ≡ some u))
      on_slice none = (λ h. cc, λ h. let (u, e) = h in cc)
      on_slice (some t) = (λ h. (t, refl), λ h. refl)

      go :
          (r : Outcome (Option SliceConfig))
          → ((resume (r, w) (refuse_if_in_use rotation)).0 ≡ ok tt) ↔ (
              (r ≡ ok none)
              ⊎ ((slice : SliceConfig) × (t : ℕ) × (r ≡ ok (some slice))
                  × (slice.metadata.deletion_timestamp ≡ some t)))
      go (ok none) = (λ h. inl refl, λ h. refl)
      go (ok (some slice)) = (
        λ h.
            let (t, e) = (on_slice slice.metadata.deletion_timestamp).0 h in
            inr (slice, t, refl, e),
        λ h. elim h [
          | inl e ↦ cc
          | inr (other, t, e, f) ↦
              let same : other ≡ slice = cc in
              (on_slice slice.metadata.deletion_timestamp).1
                (t, ap (λ s. s.metadata.deletion_timestamp) (sym same) ∙ f)
        ],
      )
      go (err x) = (λ h. cc, λ h. elim h [ inl e ↦ cc | inr (other, t, e, f) ↦ cc ])
      go panic = (λ h. cc, λ h. elim h [ inl e ↦ cc | inr (other, t, e, f) ↦ cc ])
