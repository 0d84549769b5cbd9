-- ===== src/Witnesses/Rotations.antt =====
-- The theorems on the rotation of certificates at concrete inputs.
use kubeslice_controller.Witnesses.Data.{Server, server, services, slice, rotation, job}
use kubeslice_controller.Common.{◌≡◌, ◌≢◌, refl, ◌↔◌, true, false, [], ◌∷◌, some, All}
use kubeslice_controller.Go.{ok}
use kubeslice_controller.Platform.{list_resources, update_resource}
use kubeslice_controller.KeyRotation.Jobs.{
  verify_all_jobs_are_completed, jobs_status, job_complete, IsDone, jobs_status_complete,
}
use kubeslice_controller.KeyRotation.Services.{World}
use kubeslice_controller.Util.Reconciliation.{done}
use kubeslice_controller.KeyRotation.Reconcile.{reconcile_vpn_key_rotation_config, rotated}
use kubeslice_controller.KeyRotation.Counting.{Step, reconcile_vpn_key_rotation_config-Step}

abbrev world : World Server
world = record { api = 3000000; job_creation_in_progress = true }

issued_again :
    reconcile_vpn_key_rotation_config server services
      (rotation (some 2000000))
      (slice ("west" ∷ []))
      world
    ≡ (
      ok (done, some (rotated 3000000 (rotation (some 2000000)))),
      record { api = 3000000; job_creation_in_progress = false },
    )
unfolding reconcile_vpn_key_rotation_config verify_all_jobs_are_completed list_resources
    update_resource
issued_again = refl

Step_example :
    Step server
      (rotation (some 2000000))
      world
      (record { api = 3000000; job_creation_in_progress = false })
      (rotated 3000000 (rotation (some 2000000)))
Step_example =
    reconcile_vpn_key_rotation_config-Step server services (rotation (some 2000000))
      (slice ("west" ∷ [])) world (record { api = 3000000; job_creation_in_progress = false }) done
      (rotated 3000000 (rotation (some 2000000))) issued_again

jobs_status_example :
    (jobs_status (job ∷ []) ≡ job_complete) ↔ ((job ∷ [] ≢ []) × All IsDone (job ∷ []))
jobs_status_example = jobs_status_complete (job ∷ [])
