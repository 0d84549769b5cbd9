-- ===== src/KeyRotation/Reconcile.antt =====
-- The reconciliation of a VpnKeyRotation (service/vpn_key_rotation_service.go).
use kubeslice_controller.Common.{ℕ, ◌+◌, String, Bool, true, false, ◌&&◌, Option, none, some, ltb}
use kubeslice_controller.Common.Int.{pos}
use kubeslice_controller.Go.{Outcome, ok, err, panic}
use kubeslice_controller.Go.Effect.{M, ◌>>=◌, ◌>>◌, pure, throw, asks}
use kubeslice_controller.Resources.Slice.{SliceConfig}
use kubeslice_controller.Resources.Rotation.{VpnKeyRotation}
use kubeslice_controller.Platform.{Platform, update_resource}
use kubeslice_controller.Util.Reconciliation.{Result, done}
use kubeslice_controller.SliceWebhook.Updates.{expiry_after}
use kubeslice_controller.KeyRotation.Jobs.{
  JobStatus, job_complete, job_error, job_suspended, job_list_error, job_running, job_not_created,
  verify_all_jobs_are_completed,
}
use kubeslice_controller.KeyRotation.Services.{Services, World}
use kubeslice_controller.KeyRotation.Certificates.{trigger_jobs_for_cert_creation}

abbrev after_30_seconds : Result
after_30_seconds = record { requeue = false; requeue_after = pos 30 }

-- A call of the API server.
abbrev pub on_api : {W A : Type 0} → M W A → M (World W) A
on_api m v = let (r, w) = m v.api in (r, record v { api = w })

-- `jobCreationInProgress.Store`
abbrev pub store : {W : Type 0} → Bool → M (World W) (Unit {0})
store b v = (ok tt, record v { job_creation_in_progress = b })

-- New times for the certificates.
abbrev pub certified : ℕ → VpnKeyRotation → VpnKeyRotation
certified now rotation = record rotation {
  spec = record rotation.spec {
    certificate_creation_time = some now;
    certificate_expiry_time = some (expiry_after now rotation.spec.rotation_interval);
  };
}

-- The same with a further rotation counted.
abbrev pub rotated : ℕ → VpnKeyRotation → VpnKeyRotation
rotated now rotation =
    let next = certified now rotation in
    record next { spec = record next.spec { rotation_count = rotation.spec.rotation_count + 1 } }

abbrev pub is_none {ℓ} : {A : Type ℓ} → Option A → Bool
is_none none = true
is_none (some a) = false

module _ {W : Type 0} (platform : Platform W) where
  abbrev pub event : String → VpnKeyRotation → M (World W) (Unit {0})
  event name rotation v =
      (ok tt, record v { api = platform.record_event name rotation.metadata.name v.api })

  -- What follows verifyAllJobsAreCompleted: `issue` where the jobs are complete.
  unfoldable pub when_jobs_complete :
      VpnKeyRotation
      → M (World W) (Result × Option VpnKeyRotation)
      → JobStatus
      → M (World W) (Result × Option VpnKeyRotation)
  when_jobs_complete rotation issue job_running = pure (after_30_seconds, none)
  when_jobs_complete rotation issue job_not_created = pure (after_30_seconds, none)
  when_jobs_complete rotation issue job_error =
      event "EventCertificateJobFailed" rotation >> pure (done, none)
  when_jobs_complete rotation issue job_suspended =
      event "EventCertificateJobFailed" rotation >> pure (done, none)
  when_jobs_complete rotation issue job_complete = issue
  when_jobs_complete rotation issue job_list_error = issue

  -- The write of the new times, of the first certificates.
  unfoldable pub issue_first : ℕ → VpnKeyRotation → M (World W) (Result × Option VpnKeyRotation)
  issue_first now rotation = do
    on_api (update_resource platform.vpn_key_rotations (certified now rotation))
    event "EventVPNKeyRotationConfigUpdated" (certified now rotation)
    pure (done, some (certified now rotation))

  -- The write that completes a rotation, and the reset of the flag.
  unfoldable pub issue_next : ℕ → VpnKeyRotation → M (World W) (Result × Option VpnKeyRotation)
  issue_next now rotation = do
    on_api (update_resource platform.vpn_key_rotations (rotated now rotation))
    store false
    event "EventVPNKeyRotationStart" (rotated now rotation)
    pure (done, some (rotated now rotation))

  -- What follows triggerJobsForCertCreation: an error is reported by an event and returned.
  unfoldable pub after_start :
      VpnKeyRotation
      → Outcome (Unit {0}) × World W
      → Outcome (Result × Option VpnKeyRotation) × World W
  after_start rotation (ok u, v) = (store true >> pure (after_30_seconds, none)) v
  after_start rotation (err e, v) =
      (event "EventCertificateJobCreationFailed" rotation >> throw e) v
  after_start rotation (panic, v) = (panic, v)

  module _ (services : Services W) where
    -- The start of a rotation.
    unfoldable pub start_rotation :
        VpnKeyRotation → SliceConfig → M (World W) (Result × Option VpnKeyRotation)
    unfolding after_start
    start_rotation rotation slice v =
        after_start rotation
          (on_api (trigger_jobs_for_cert_creation platform services slice rotation) v)

    -- An expired rotation: by the flag, start it or look for its end.
    unfoldable pub reconcile_expired :
        ℕ → VpnKeyRotation → SliceConfig → M (World W) (Result × Option VpnKeyRotation)
    unfolding start_rotation when_jobs_complete issue_next
    reconcile_expired now rotation slice v = elim v.job_creation_in_progress [
      | false ↦ start_rotation rotation slice v
      | true ↦
          (on_api (asks (verify_all_jobs_are_completed platform rotation.spec.slice_name))
              >>= when_jobs_complete rotation (issue_next now rotation))
            v
    ]

    -- reconcileVpnKeyRotationConfig
    unfoldable pub reconcile_vpn_key_rotation_config :
        VpnKeyRotation → SliceConfig → M (World W) (Result × Option VpnKeyRotation)
    unfolding reconcile_expired issue_first
    reconcile_vpn_key_rotation_config rotation slice v =
        let now = platform.now v.api in
        elim (is_none rotation.spec.certificate_creation_time
          && is_none rotation.spec.certificate_expiry_time) [
            | true ↦
                (on_api (asks (verify_all_jobs_are_completed platform rotation.spec.slice_name))
                    >>= when_jobs_complete rotation (issue_first now rotation))
                  v
            | false ↦ elim rotation.spec.certificate_expiry_time [
              | none ↦ (panic, v)
              | some expiry ↦ elim (ltb expiry now) [
                | true ↦ reconcile_expired now rotation slice v
                | false ↦ (ok (done, some rotation), v)
              ]
            ]
          ]
