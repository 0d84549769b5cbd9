-- ===== src/KeyRotation/Counting.antt =====
-- When a reconciliation counts a further rotation, and what it needs for that
-- (service/vpn_key_rotation_service.go).
use kubeslice_controller.Common.{
  ℕ, ◌<◌, ◌≤◌, ◌≡◌, ◌≢◌, refl, ◌⊎◌, inl, inr, Bool, true, false, ◌&&◌, List, [], ◌∷◌, Option, none,
  some, ltb, All, arith,
}
use kubeslice_controller.Go.{Outcome, ok, err, panic}
use kubeslice_controller.Go.Effect.{M, ◌>>=◌, asks}
use kubeslice_controller.Resources.Meta.{Job}
use kubeslice_controller.Resources.Slice.{SliceConfig}
use kubeslice_controller.Resources.Rotation.{VpnKeyRotation}
use kubeslice_controller.Platform.{Platform, list_resources, update_resource}
use kubeslice_controller.KeyRotation.Jobs.{
  JobStatus, job_complete, job_error, job_suspended, job_list_error, job_running, job_not_created,
  verify_all_jobs_are_completed, jobs_status, jobs_status_complete, jobs_status-listed, IsDone,
}
use kubeslice_controller.KeyRotation.Services.{Services, World}
use kubeslice_controller.Util.Reconciliation.{Result, done}
use kubeslice_controller.KeyRotation.Reconcile.{
  is_none, certified, rotated, when_jobs_complete, issue_first, issue_next, reconcile_expired,
  start_rotation, after_start, reconcile_vpn_key_rotation_config,
}

module _ {W : Type 0} (platform : Platform W) (rotation : VpnKeyRotation) (v v' : World W) where
  -- The slice has jobs, and all of them are done.
  abbrev JobsAreDone : Type 0
  JobsAreDone =
      (jobs : List Job) × (list_resources platform.jobs
          (("SLICE_NAME", rotation.spec.slice_name) ∷ []) none v.api
        ≡ ok jobs)
      × (jobs ≢ [])
      × All IsDone jobs

  complete_if_issued :
      (issue : M (World W) (Result × Option VpnKeyRotation)) (r : Result) (next : VpnKeyRotation)
      → (asks (λ (u : World W).
              verify_all_jobs_are_completed platform rotation.spec.slice_name u.api)
            >>= when_jobs_complete platform rotation issue)
          v
        ≡ (ok (r, some next), v')
      → JobsAreDone × (issue v ≡ (ok (r, some next), v'))
  unfolding when_jobs_complete verify_all_jobs_are_completed
  complete_if_issued issue r next h =
      listed
        (list_resources platform.jobs (("SLICE_NAME", rotation.spec.slice_name) ∷ []) none v.api)
        refl h
    where
      status :
          (s : JobStatus)
          → when_jobs_complete platform rotation issue s v ≡ (ok (r, some next), v')
          → (s ≢ job_list_error)
          → (s ≡ job_complete) × (issue v ≡ (ok (r, some next), v'))
      status job_complete k n = (refl, k)
      status job_list_error k n = absurd (n refl)
      status job_running k n = cc
      status job_error k n = cc
      status job_suspended k n = cc
      status job_not_created k n = cc

      listed :
          (jobs : Outcome (List Job))
          → list_resources platform.jobs (("SLICE_NAME", rotation.spec.slice_name) ∷ []) none v.api
            ≡ jobs
          → (asks (λ (u : World W).
                  verify_all_jobs_are_completed platform rotation.spec.slice_name u.api)
                >>= when_jobs_complete platform rotation issue)
              v
            ≡ (ok (r, some next), v')
          → JobsAreDone × (issue v ≡ (ok (r, some next), v'))
      listed (ok jobs) e k =
          let s = status (jobs_status jobs) (rw e at k) (jobs_status-listed jobs) in
          let all = (jobs_status_complete jobs).0 s.0 in ((jobs, e, all.0, all.1), s.1)
      listed (err x) e k = let wrong = rw e at k in cc
      listed panic e k = let wrong = rw e at k in cc

  -- The two writes.
  first_lem :
      (now : ℕ) (r : Result) (next : VpnKeyRotation)
      → issue_first platform now rotation v ≡ (ok (r, some next), v')
      → next ≡ certified now rotation
  unfolding issue_first update_resource
  first_lem now r next h = ground (arith, h)

  next_lem :
      (now : ℕ) (r : Result) (next : VpnKeyRotation)
      → issue_next platform now rotation v ≡ (ok (r, some next), v')
      → (next ≡ rotated now rotation) × (v'.job_creation_in_progress ≡ false)
  unfolding issue_next update_resource
  next_lem now r next h = ground (arith, h)

both_none : {A : Type 0} (x y : Option A) → is_none x && is_none y ≡ true → (x ≡ none) × (y ≡ none)
both_none none none h = (refl, refl)
both_none none (some b) h = cc
both_none (some a) y h = cc

-- A branch on a test.
branch :
    {A : Type 0} (b : Bool) (x y : A) {z : A}
    → elim b as (λ _. A) [ true ↦ x | false ↦ y ] ≡ z
    → ((b ≡ true) × (x ≡ z)) ⊎ ((b ≡ false) × (y ≡ z))
branch true x y h = inl (refl, h)
branch false x y h = inr (refl, h)

-- What a reconciliation returns of a rotation, at the time `now`.
pub data Step {W : Type 0} (platform : Platform W) (rotation : VpnKeyRotation) (v v' : World W)
    (next : VpnKeyRotation) : Type 0 where
  -- Its certificates are valid: it is as it was.
  valid :
      (expiry : ℕ)
      → rotation.spec.certificate_expiry_time ≡ some expiry
      → platform.now v.api ≤ expiry
      → next ≡ rotation
      → v' ≡ v
      → Step platform rotation v v' next
  -- Its first certificates are issued, and no rotation is counted.
  issued :
      rotation.spec.certificate_creation_time ≡ none
      → rotation.spec.certificate_expiry_time ≡ none
      → JobsAreDone platform rotation v v'
      → next ≡ certified (platform.now v.api) rotation
      → Step platform rotation v v' next
  -- They have expired, a rotation was in progress, and it is counted.
  counted :
      (expiry : ℕ)
      → rotation.spec.certificate_expiry_time ≡ some expiry
      → expiry < platform.now v.api
      → v.job_creation_in_progress ≡ true
      → JobsAreDone platform rotation v v'
      → next ≡ rotated (platform.now v.api) rotation
      → v'.job_creation_in_progress ≡ false
      → Step platform rotation v v' next

module _ {W : Type 0} (platform : Platform W) (services : Services W) (rotation : VpnKeyRotation)
    (slice : SliceConfig) (v v' : World W) (r : Result) (next : VpnKeyRotation) where
  never_started : ¬ (start_rotation platform services rotation slice v ≡ (ok (r, some next), v'))
  unfolding start_rotation after_start
  never_started h = ground (arith, h)

  expired_step :
      reconcile_expired platform services (platform.now v.api) rotation slice v
        ≡ (ok (r, some next), v')
      → (v.job_creation_in_progress ≡ true)
        × JobsAreDone platform rotation v v'
        × (next ≡ rotated (platform.now v.api) rotation)
        × (v'.job_creation_in_progress ≡ false)
  unfolding reconcile_expired
  expired_step h =
      let now = platform.now v.api in
      elim (branch v.job_creation_in_progress
        ((asks (λ (u : World W).
              verify_all_jobs_are_completed platform rotation.spec.slice_name u.api)
            >>= when_jobs_complete platform rotation (issue_next platform now rotation))
          v)
        (start_rotation platform services rotation slice v) h) [
          | inl (e, k) ↦
              let (jobs, write) =
                complete_if_issued platform rotation v v' (issue_next platform now rotation) r next
                  k in
              let (same, reset) = next_lem platform rotation v v' now r next write in
              (e, jobs, same, reset)
          | inr (e, k) ↦ absurd (never_started k)
        ]

  -- The branch for a rotation that has times.
  scheduled : Option ℕ → Outcome (Result × Option VpnKeyRotation) × World W
  scheduled none = (panic, v)
  scheduled (some expiry) = elim (ltb expiry (platform.now v.api)) [
    | true ↦ reconcile_expired platform services (platform.now v.api) rotation slice v
    | false ↦ (ok (done, some rotation), v)
  ]

  scheduled-Step :
      (t : Option ℕ)
      → rotation.spec.certificate_expiry_time ≡ t
      → scheduled t ≡ (ok (r, some next), v')
      → Step platform rotation v v' next
  unfolding scheduled
  scheduled-Step none e h = cc
  scheduled-Step (some expiry) e h =
      elim (branch (ltb expiry (platform.now v.api))
        (reconcile_expired platform services (platform.now v.api) rotation slice v)
        (ok (done, some rotation), v) h) [
          | inl (late, k) ↦
              let (flag, jobs, same, reset) = expired_step k in
              counted expiry e (ground (arith, late)) flag jobs same reset
          | inr (early, k) ↦ valid expiry e (ground (arith, early)) (cc) (cc)
        ]

  -- A reconciliation that returns a rotation with no error found its certificates valid and left it and the
  -- state as they were; or issued the first ones, with the expiry that the interval sets, after all jobs
  -- of the slice were done; or counted one further rotation, where the certificates had expired, a
  -- rotation was in progress and all jobs of the slice were done, and then cleared the flag.
  pub reconcile_vpn_key_rotation_config-Step :
      reconcile_vpn_key_rotation_config platform services rotation slice v ≡ (ok (r, some next), v')
      → Step platform rotation v v' next
  unfolding reconcile_vpn_key_rotation_config scheduled
  reconcile_vpn_key_rotation_config-Step h =
      let now = platform.now v.api in
      elim (branch
        (is_none rotation.spec.certificate_creation_time
          && is_none rotation.spec.certificate_expiry_time)
        ((asks (λ (u : World W).
              verify_all_jobs_are_completed platform rotation.spec.slice_name u.api)
            >>= when_jobs_complete platform rotation (issue_first platform now rotation))
          v)
        (scheduled rotation.spec.certificate_expiry_time) h) [
          | inl (e, k) ↦
              let (jobs, write) =
                complete_if_issued platform rotation v v' (issue_first platform now rotation) r next
                  k in
              let (no_creation, no_expiry) =
                both_none rotation.spec.certificate_creation_time
                  rotation.spec.certificate_expiry_time e in
              issued no_creation no_expiry jobs (first_lem platform rotation v v' now r next write)
          | inr (e, k) ↦ scheduled-Step rotation.spec.certificate_expiry_time refl k
        ]
