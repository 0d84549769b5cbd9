-- ===== src/Webhooks/Workers.antt =====
-- service/worker_slice_config_webhook_validation.go and service/worker_slice_gateway_webhook_validation.go
pub mod Accepted
pub mod Derived
use kubeslice_controller.Common.{
  ℕ, ◌≡◌, refl, ◌≢◌, not, true, false, Bool, Option, none, some, ◌↔◌, ◌⊎◌, inl, inr, ◌=?◌, =?_iff,
  arith,
}
use kubeslice_controller.Go.{Outcome, ok, err, panic, reject_if, invalid}
use kubeslice_controller.Resources.Worker.{WorkerSliceConfig, WorkerSliceGateway}

-- A new worker slice without an octet is a nil pointer where the old one has an octet.
abbrev octet_unchanged : Option ℕ → Option ℕ → Outcome (Unit {0})
octet_unchanged none new = ok tt
octet_unchanged (some old) none = panic
octet_unchanged (some old) (some new) =
    reject_if (not (old =? new)) (invalid "Spec.Octet" "cannot be updated")

-- preventUpdateWorkerSliceConfig
unfoldable prevent_update_worker_slice_config :
    WorkerSliceConfig → WorkerSliceConfig → Outcome (Unit {0})
prevent_update_worker_slice_config new old = octet_unchanged old.spec.octet new.spec.octet

-- ValidateWorkerSliceConfigUpdate
unfoldable pub validate_worker_slice_config_update :
    WorkerSliceConfig → WorkerSliceConfig → Outcome (Unit {0})
unfolding prevent_update_worker_slice_config
validate_worker_slice_config_update new old = prevent_update_worker_slice_config new old

-- preventUpdateWorkerSliceGateway
unfoldable prevent_update_worker_slice_gateway :
    WorkerSliceGateway → WorkerSliceGateway → Outcome (Unit {0})
prevent_update_worker_slice_gateway new old =
    reject_if (not (old.spec.gateway_number =? new.spec.gateway_number))
      (invalid "Spec.GatewayNumber" "cannot be updated")

-- ValidateWorkerSliceGatewayUpdate
unfoldable validate_worker_slice_gateway_update :
    WorkerSliceGateway → WorkerSliceGateway → Outcome (Unit {0})
unfolding prevent_update_worker_slice_gateway
validate_worker_slice_gateway_update new old = prevent_update_worker_slice_gateway new old

unchanged_iff :
    (old new : Option ℕ) → (octet_unchanged old new ≡ ok tt) ↔ ((old ≡ none) ⊎ (old ≡ new))
unchanged_iff none new = (λ h. inl refl, λ h. refl)
unchanged_iff (some i) none = (λ h. cc, λ h. elim h [ inl e ↦ cc | inr e ↦ cc ])
unchanged_iff (some i) (some j) =
    (λ h. ground (arith, h, =?_iff i j), λ h. ground (arith, h, =?_iff i j))

-- The octet of a worker slice, once it has one, stays: an update is accepted exactly when the old worker slice
-- has no octet or the new one has the same.
pub validate_worker_slice_config_update_iff :
    (new old : WorkerSliceConfig)
    → (validate_worker_slice_config_update new old ≡ ok tt)
      ↔ ((old.spec.octet ≡ none) ⊎ (old.spec.octet ≡ new.spec.octet))
unfolding validate_worker_slice_config_update
validate_worker_slice_config_update_iff new old = unchanged_iff old.spec.octet new.spec.octet
