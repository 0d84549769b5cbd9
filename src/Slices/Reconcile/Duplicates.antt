-- ===== src/Slices/Reconcile/Duplicates.antt =====
-- Slices that name a cluster twice (service/slice_config_service.go).
use kubeslice_controller.Common.{String, ◌≡◌, refl, ap, ◌∙◌, Bool-cases, inl, inr, some, IsDistinct}
use kubeslice_controller.Go.{ok}
use kubeslice_controller.Go.Effect.{resume}
use kubeslice_controller.Resources.Slice.{SliceConfig}
use kubeslice_controller.Platform.{Platform, get_resource_if_exist}
use kubeslice_controller.Util.Arrays.{check_duplicate_in_array}
use kubeslice_controller.Util.Arrays.Laws.{check_duplicate_in_array-IsDistinct}
use kubeslice_controller.Util.Reconciliation.{done}
use kubeslice_controller.Gateways.Certs.{JobSettings}
use kubeslice_controller.Slices.Reconcile.{reconcile_slice_config, reconcile_found}

module _ {W : Type 0} (platform : Platform W) (settings : JobSettings) (namespace : String) where
  -- ReconcileSliceConfig leaves a slice that names a cluster twice as it is, returns no error and changes
  -- nothing, also where the slice is being deleted: its finalizer then stays.
  reconcile_slice_config-duplicate :
      (name : String) (slice : SliceConfig) (w : W)
      → get_resource_if_exist platform.slice_configs
          (record { namespace = namespace; name = name })
          w
        ≡ ok (some slice)
      → ¬ IsDistinct slice.spec.clusters
      → reconcile_slice_config platform settings namespace name w ≡ (ok done, w)
  unfolding reconcile_slice_config
  reconcile_slice_config-duplicate name slice w found twice =
      ap (λ r. resume (r, w) (reconcile_found platform settings namespace)) found
      ∙ elim (Bool-cases (check_duplicate_in_array slice.spec.clusters).0) [
        | inl duplicate ↦ rw (reconcile_found, duplicate) refl
        | inr distinct ↦
            absurd (twice ((check_duplicate_in_array-IsDistinct slice.spec.clusters).0 distinct))
      ]
