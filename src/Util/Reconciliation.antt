-- ===== src/Util/Reconciliation.antt =====
-- Finalizers (util/reconciliation_utility.go, service/service_helper.go). An update leaves the object that
-- the program holds as it wrote it; resource versions are not modelled.
pub mod Waiting
use kubeslice_controller.Common.{
  ℕ, ◌+◌, ◌*◌, String, Bool, true, false, not, List, [], ◌∷◌, ◌++◌, Option, none, some, contains,
  filter, ltb, ◌==◌,
}
use kubeslice_controller.Common.Int.{ℤ, pos}
use kubeslice_controller.Go.{Outcome, ok, err, panic}
use kubeslice_controller.Go.Effect.{M, ◌>>=◌, ◌>>◌, pure, asks}
use kubeslice_controller.Resources.Meta.{ObjectMeta, Key}
use kubeslice_controller.Platform.{
  Platform, Resource, Fetch, found, missing, failed, update_resource,
}
use kubeslice_controller.Util.Arrays.{contains_string}

-- `ctrl.Result`, with seconds.
pub record Result : Type 0 where
  pub requeue : Bool
  pub requeue_after : ℤ

abbrev pub done : Result
done = record { requeue = false; requeue_after = pos 0 }

-- IsReconciled: whether to return at once, and what. An error says so itself.
abbrev is_reconciled : Outcome Result → Bool × Outcome Result
is_reconciled (ok result) = (result.requeue, ok result)
is_reconciled (err e) = (true, err e)
is_reconciled panic = (true, panic)

-- 3 minutes
abbrev pub worker_delete_requeue_seconds : ℕ
worker_delete_requeue_seconds = 3 * 60

-- The interface `client.Object`, as far as finalizers go.
pub record Object (A : Type 0) : Type 0 where
  pub metadata : A → ObjectMeta
  pub with_finalizers : List String → A → A

module _ {W A : Type 0} (platform : Platform W) (resource : Resource W A) (object : Object A) where
  abbrev key_of : A → Key
  key_of a = record { namespace = (object.metadata a).namespace; name = (object.metadata a).name }

  -- controllerutil.AddFinalizer and controllerutil.RemoveFinalizer
  abbrev finalizer_added : String → A → A
  finalizer_added name a =
      let old = (object.metadata a).finalizers in
      elim (contains old name) [ true ↦ a | false ↦ object.with_finalizers (old ++ (name ∷ [])) a ]

  abbrev finalizer_removed : String → A → A
  finalizer_removed name a =
      object.with_finalizers (filter (λ f. not (f == name)) (object.metadata a).finalizers) a

  -- The object after it is read again: as it was written where that fails.
  abbrev reread : A → Fetch A → A
  reread written (found a) = a
  reread written missing = written
  reread written (failed e) = written

  -- AddFinalizer, which leaves the object read again.
  unfoldable pub add_finalizer : String → A → M W (Result × A)
  add_finalizer name a =
      let written = finalizer_added name a in
      update_resource resource written >> λ w.
      (ok (done, reread written (resource.get (key_of written) w)), w)

  -- RemoveFinalizer
  unfoldable pub remove_finalizer : String → A → M W (Result × A)
  remove_finalizer name a =
      let written = finalizer_removed name a in
      update_resource resource written >> pure (done, written)

  -- Whether a deletion is younger than the time that other owners of finalizers are given.
  abbrev pub is_recent : Option ℕ → ℕ → Outcome Bool
  is_recent none now = panic
  is_recent (some t) now = ok (ltb now (t + worker_delete_requeue_seconds))

  abbrev pub later : Result
  later = record { requeue = true; requeue_after = pos worker_delete_requeue_seconds }

  -- The removal of all finalizers; its error is only logged.
  abbrev pub clear_finalizers : A → M W Result
  clear_finalizers a w = (ok done, (update_resource resource (object.with_finalizers [] a) w).1)

  -- Where other finalizers stand beside the worker's.
  abbrev pub wait_or_clear : A → Bool → M W Result
  wait_or_clear a true = pure later
  wait_or_clear a false = clear_finalizers a

  abbrev pub when_worker_is_owner : A → List String → M W Result
  when_worker_is_owner a [] = clear_finalizers a
  when_worker_is_owner a (x ∷ xs) =
      asks (λ w. is_recent (object.metadata a).deletion_timestamp (platform.now w))
      >>= wait_or_clear a

  abbrev pub when_owned : A → Bool → List String → M W Result
  when_owned a false additional = clear_finalizers a
  when_owned a true additional = when_worker_is_owner a additional

  -- RemoveWorkerFinalizers
  unfoldable pub remove_worker_finalizers : String → A → M W Result
  remove_worker_finalizers name a =
      when_owned a (contains_string (object.metadata a).finalizers name)
        (filter (λ f. not (f == name)) (object.metadata a).finalizers)
