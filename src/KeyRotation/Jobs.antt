-- ===== src/KeyRotation/Jobs.antt =====
-- The status of a slice's certificate jobs (service/vpn_key_rotation_service.go).
use kubeslice_controller.Common.{
  String, ◌≡◌, ◌≢◌, refl, ◌↔◌, true, false, ◌&&◌, List, [], ◌∷◌, Option, none, some, ◌==◌, ltb, any,
  All, arith, ◌⊎◌, eq_iff,
}
use kubeslice_controller.Go.{Outcome, ok, ◌>>=◌}
use kubeslice_controller.Resources.Meta.{Job, JobCondition}
use kubeslice_controller.Platform.{Platform, list_resources}

pub data JobStatus : Type 0 where
  job_complete job_error job_suspended job_list_error job_running job_not_created : JobStatus

-- The inner loop of verifyAllJobsAreCompleted: the first condition for which it returns.
unfoldable conditions_status : List JobCondition → Option JobStatus
conditions_status [] = none
conditions_status (c ∷ rest) = elim (c.condition_type == "Failed" && c.status == "True") [
  | true ↦ some job_error
  | false ↦ elim (c.condition_type == "Suspended" && c.status == "True") [
    | true ↦ some job_suspended
    | false ↦ conditions_status rest
  ]
]

-- The outer loop.
unfoldable jobs_failed : List Job → Option JobStatus
unfolding conditions_status
jobs_failed [] = none
jobs_failed (job ∷ rest) = elim (conditions_status job.conditions) [
  | some status ↦ some status
  | none ↦ jobs_failed rest
]

-- The status of the jobs that the list call returns.
unfoldable pub jobs_status : List Job → JobStatus
unfolding jobs_failed
jobs_status [] = job_not_created
jobs_status (job ∷ rest) = elim (jobs_failed (job ∷ rest)) [
  | some status ↦ status
  | none ↦ elim (any (λ (j : Job). ltb 0 j.active) (job ∷ rest)) [
    | true ↦ job_running
    | false ↦ job_complete
  ]
]

-- verifyAllJobsAreCompleted
unfoldable pub verify_all_jobs_are_completed :
    {W : Type 0} → Platform W → String → W → Outcome JobStatus
unfolding jobs_status
verify_all_jobs_are_completed platform slice_name w =
    list_resources platform.jobs (("SLICE_NAME", slice_name) ∷ []) none w >>= λ jobs.
    ok (jobs_status jobs)

-- A condition that ends a job without its certificates.
abbrev Ends : JobCondition → Type 0
Ends c = (c.status ≡ "True") × ((c.condition_type ≡ "Failed") ⊎ (c.condition_type ≡ "Suspended"))

-- A job that neither failed nor was suspended, and has no active pod.
abbrev pub IsDone : Job → Type 0
IsDone job = All (λ (c : JobCondition). ¬ Ends c) job.conditions × (job.active ≡ 0)

conditions_status-none :
    (cs : List JobCondition)
    → (conditions_status cs ≡ none) ↔ All (λ (c : JobCondition). ¬ Ends c) cs
unfolding conditions_status
conditions_status-none [] = (λ h. tt, λ h. refl)
conditions_status-none (c ∷ rest) = (
  λ h. ground (
    arith,
    h,
    conditions_status-none rest,
    eq_iff c.condition_type "Failed",
    eq_iff c.condition_type "Suspended",
    eq_iff c.status "True",
  ),
  λ h. ground (
    arith,
    h,
    conditions_status-none rest,
    eq_iff c.condition_type "Failed",
    eq_iff c.condition_type "Suspended",
    eq_iff c.status "True",
  ),
)

-- The loops return only these two.
conditions_status-incomplete : (cs : List JobCondition) → conditions_status cs ≢ some job_complete
unfolding conditions_status
conditions_status-incomplete [] = λ h. cc
conditions_status-incomplete (c ∷ rest) = λ h. ground (arith, h, conditions_status-incomplete rest)

jobs_failed-incomplete : (jobs : List Job) → jobs_failed jobs ≢ some job_complete
unfolding jobs_failed
jobs_failed-incomplete [] = λ h. cc
jobs_failed-incomplete (job ∷ rest) =
    λ h. ground (arith, h, jobs_failed-incomplete rest, conditions_status-incomplete job.conditions)

IsDone-iff :
    (jobs : List Job)
    → All IsDone jobs
      ↔ ((jobs_failed jobs ≡ none) × (any (λ (j : Job). ltb 0 j.active) jobs ≡ false))
unfolding jobs_failed
IsDone-iff [] = (λ h. (refl, refl), λ h. tt)
IsDone-iff (job ∷ rest) = (
  λ h.
      let ends = (conditions_status-none job.conditions).1 h.0.0 in
      let ih = (IsDone-iff rest).0 h.1 in ground (arith, h.0.1, ends, ih),
  λ h.
      let ends : conditions_status job.conditions ≡ none = ground (arith, h) in
      let rest_fails : jobs_failed rest ≡ none = ground (arith, h, ends) in
      let idle : (job.active ≡ 0) × (any (λ (j : Job). ltb 0 j.active) rest ≡ false) =
        ground (arith, h.1) in
      (
        ((conditions_status-none job.conditions).0 ends, idle.0),
        (IsDone-iff rest).1 (rest_fails, idle.1),
      ),
)

-- verifyAllJobsAreCompleted finds the jobs complete exactly when the slice has a job and no job has failed,
-- is suspended or has an active pod.
pub jobs_status_complete :
    (jobs : List Job) → (jobs_status jobs ≡ job_complete) ↔ ((jobs ≢ []) × All IsDone jobs)
unfolding jobs_status
jobs_status_complete [] = (λ h. cc, λ h. absurd (h.0 refl))
jobs_status_complete (job ∷ rest) = (
  λ h. (
    λ e. cc,
    (IsDone-iff (job ∷ rest)).1 (ground (arith, h, jobs_failed-incomplete (job ∷ rest))),
  ),
  λ h. let both = (IsDone-iff (job ∷ rest)).0 h.1 in ground (arith, both),
)

conditions_status-listed : (cs : List JobCondition) → conditions_status cs ≢ some job_list_error
unfolding conditions_status
conditions_status-listed [] = λ h. cc
conditions_status-listed (c ∷ rest) = λ h. ground (arith, h, conditions_status-listed rest)

jobs_failed-listed : (jobs : List Job) → jobs_failed jobs ≢ some job_list_error
unfolding jobs_failed
jobs_failed-listed [] = λ h. cc
jobs_failed-listed (job ∷ rest) =
    λ h. ground (arith, h, jobs_failed-listed rest, conditions_status-listed job.conditions)

-- The status of an error is returned with an error only.
pub jobs_status-listed : (jobs : List Job) → jobs_status jobs ≢ job_list_error
unfolding jobs_status
jobs_status-listed [] = λ h. cc
jobs_status-listed (job ∷ rest) = λ h. ground (arith, h, jobs_failed-listed (job ∷ rest))
