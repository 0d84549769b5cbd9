-- ===== src/Webhooks/Deletions.antt =====
-- The validations of deletions of clusters and projects (service/cluster_webhook_validation.go and
-- service/project_webhook_validation.go).
use kubeslice_controller.Common.{
  ℕ, suc, ◌≤◌, String, ◌≡◌, refl, sym, ap, ◌↔◌, ◌⊎◌, subst, inl, inr, Bool, true, false, List, [],
  ◌∷◌, some, All, length, ltb, ◌=?◌, =?_iff, ◌==◌, arith,
}
use kubeslice_controller.Go.{Error, forbidden, Outcome, ok, err, panic, reject_if}
use kubeslice_controller.Go.Accepts.{reject_if_iff}
use kubeslice_controller.Go.Text.{◌<>◌}
use kubeslice_controller.Resources.Meta.{label}
use kubeslice_controller.Resources.Slice.{SliceConfig}
use kubeslice_controller.Resources.Cluster.{Cluster}
use kubeslice_controller.Resources.Worker.{WorkerSliceConfig}
use kubeslice_controller.Resources.Project.{Project}
use kubeslice_controller.Platform.{Platform, list_resources}
use kubeslice_controller.Util.Projects.{get_project_name, default_slice_name}

-- Whether the labels of a worker slice name the default slice of its project.
abbrev is_default_worker : WorkerSliceConfig → Bool
is_default_worker worker =
    default_slice_name (get_project_name (label worker.metadata "project-namespace"))
    == label worker.metadata "original-slice-name"

abbrev count_if : Bool → ℕ → ℕ
count_if true n = suc n
count_if false n = n

-- defaultWorkerSliceCount
unfoldable default_worker_slice_count : List WorkerSliceConfig → ℕ
default_worker_slice_count [] = 0
default_worker_slice_count (worker ∷ rest) =
    count_if (is_default_worker worker) (default_worker_slice_count rest)

abbrev in_slices : Bool → List WorkerSliceConfig → Outcome (Unit {0})
in_slices true workers = ok tt
in_slices false workers =
    reject_if (ltb 0 (length workers))
      (forbidden "Cluster" "The cluster cannot be deleted which is participating in slice config")

-- An error of the list call lets the deletion pass.
abbrev in_any_slice : Outcome (List WorkerSliceConfig) → Outcome (Unit {0})
in_any_slice (err e) = ok tt
in_any_slice panic = panic
in_any_slice (ok workers) = in_slices (length workers =? default_worker_slice_count workers) workers

-- validateIfSliceConfigExists; an error of the list call lets the deletion pass.
abbrev slices_left : Project → Outcome (List SliceConfig) → Outcome Bool
slices_left project (err e) = ok false
slices_left project panic = panic
slices_left project (ok []) = ok false
slices_left project (ok (slice ∷ [])) =
    elim (slice.metadata.name == default_slice_name project.metadata.name) [
      | true ↦ ok false
      | false ↦ ok true
    ]
slices_left project (ok (slice ∷ other ∷ rest)) = ok true

module _ {W : Type 0} (platform : Platform W) (w : W) where
  abbrev worker_slices_of : Cluster → Outcome (List WorkerSliceConfig)
  worker_slices_of cluster =
      list_resources platform.worker_slice_configs (("worker-cluster", cluster.metadata.name) ∷ [])
        (some cluster.metadata.namespace) w

  -- validateClusterInAnySlice
  unfoldable validate_cluster_in_any_slice : Cluster → Outcome (Unit {0})
  unfolding default_worker_slice_count
  validate_cluster_in_any_slice cluster = in_any_slice (worker_slices_of cluster)

  -- ValidateClusterDelete
  unfoldable pub validate_cluster_delete : Cluster → Outcome (Unit {0})
  unfolding validate_cluster_in_any_slice
  validate_cluster_delete cluster = validate_cluster_in_any_slice cluster

  abbrev refuse_project : Outcome Bool → Outcome (Unit {0})
  refuse_project (ok left) =
      reject_if left
        (forbidden "Project" "The Project can be delete only after deleting the slice config")
  refuse_project (err e) = err e
  refuse_project panic = panic

  -- ValidateProjectDelete, with the prefix of the namespaces of projects, its hyphen included, which is an
  -- argument of the program
  unfoldable validate_project_delete : (prefix : String) → Project → Outcome (Unit {0})
  validate_project_delete prefix project = refuse_project (
      slices_left project
        (list_resources platform.slice_configs [] (some (prefix <> project.metadata.name)) w))

count-le : (workers : List WorkerSliceConfig) → default_worker_slice_count workers ≤ length workers
unfolding default_worker_slice_count
count-le [] = omega arith
count-le (worker ∷ rest) = go (is_default_worker worker) (count-le rest)
  where
    go :
        (b : Bool)
        → default_worker_slice_count rest ≤ length rest
        → count_if b (default_worker_slice_count rest) ≤ suc (length rest)
    go true h = omega (arith, h)
    go false h = omega (arith, h)

abbrev AllDefault : List WorkerSliceConfig → Type 0
AllDefault workers = All (λ worker. is_default_worker worker ≡ true) workers

count_iff :
    (workers : List WorkerSliceConfig)
    → (length workers ≡ default_worker_slice_count workers) ↔ AllDefault workers
unfolding default_worker_slice_count
count_iff [] = (λ h. tt, λ h. refl)
count_iff (worker ∷ rest) = go (is_default_worker worker) (count_iff rest) (count-le rest)
  where
    go :
        (b : Bool)
        → (length rest ≡ default_worker_slice_count rest) ↔ AllDefault rest
        → default_worker_slice_count rest ≤ length rest
        → (suc (length rest) ≡ count_if b (default_worker_slice_count rest))
          ↔ ((b ≡ true) × AllDefault rest)
    go true h k = (λ e. (refl, h.0 (omega (arith, e))), λ p. ap suc (h.1 p.1))
    go false h k = (λ e. let never : ⊥ = omega (arith, e, k) in elim never [ ], λ p. cc)

module _ {W : Type 0} (platform : Platform W) (w : W) (cluster : Cluster) where
  -- The worker slices of the cluster cannot be listed, or all of them are of the default slice.
  abbrev pub IsRemovable : Type 0
  IsRemovable =
      ((e : Error) × (worker_slices_of platform w cluster ≡ err e))
      ⊎ ((workers : List WorkerSliceConfig) × (worker_slices_of platform w cluster ≡ ok workers)
          × AllDefault workers)

  -- A cluster may be deleted exactly when each of its worker slices is of the default slice of the project, or
  -- when the call that lists them fails.
  pub validate_cluster_delete_iff :
      (validate_cluster_delete platform w cluster ≡ ok tt) ↔ IsRemovable
  unfolding validate_cluster_delete
  validate_cluster_delete_iff = go (worker_slices_of platform w cluster)
    where
      by_count :
          (workers : List WorkerSliceConfig) (b : Bool)
          → (length workers =? default_worker_slice_count workers) ≡ b
          → (in_slices b workers ≡ ok tt) ↔ AllDefault workers
      by_count workers true e = (
        λ h.
            (count_iff workers).0
              ((=?_iff (length workers) (default_worker_slice_count workers)).0 e),
        λ h. refl,
      )
      by_count workers false e = (
        λ h.
            let none_left : ltb 0 (length workers) ≡ false = (reject_if_iff _ _).0 h in
            (count_iff workers).0 (ground (arith, none_left, count-le workers)),
        λ k.
            let equal : (length workers =? default_worker_slice_count workers) ≡ true =
              (=?_iff (length workers) (default_worker_slice_count workers)).1
                ((count_iff workers).1 k) in
            cc,
      )

      go :
          (r : Outcome (List WorkerSliceConfig))
          → (in_any_slice r ≡ ok tt) ↔ (
              ((e : Error) × (r ≡ err e))
              ⊎ ((workers : List WorkerSliceConfig) × (r ≡ ok workers) × AllDefault workers))
      go (err e) = (λ h. inl (e, refl), λ h. refl)
      go panic = (λ h. cc, λ h. elim h [ inl e ↦ cc | inr k ↦ cc ])
      go (ok workers) = (
        λ h. inr (workers, refl, (by_count workers _ refl).0 h),
        λ h. elim h [
          | inl e ↦ cc
          | inr (others, e, k) ↦
              let same : workers ≡ others = cc in
              (by_count workers _ refl).1 (subst AllDefault (sym same) k)
        ],
      )
