-- ===== src/WorkerConfigs/Derivation/Isolation.antt =====
-- The namespaces of a worker slice (service/worker_slice_config_service.go).
use kubeslice_controller.Common.{
  ℕ, Option, String, ◌≡◌, refl, ◌∙◌, Bool, true, false, ◌||◌, ◌&&◌, List, [], ◌∷◌, ◌++◌, any,
  contains, ◌==◌, if◌then◌else◌, arith,
}
use kubeslice_controller.Resources.Slice.{SliceConfig, SliceNamespaceSelection}
use kubeslice_controller.Resources.Meta.{label}
use kubeslice_controller.Resources.Worker.{WorkerSliceConfig}
use kubeslice_controller.Util.Arrays.{remove_duplicates_from_array}
use kubeslice_controller.Util.Arrays.Laws.{contains-remove_duplicates_from_array}
use kubeslice_controller.WorkerConfigs.Derivation.{
  Copier, completed, worker_isolation_profile, namespace_for, worker_namespaces,
}

contains-++ :
    (xs ys : List String) (s : String) → contains (xs ++ ys) s ≡ (contains xs s || contains ys s)
contains-++ [] ys s = refl
contains-++ (x ∷ xs) ys s = ground (arith, contains-++ xs ys s)

module _ (worker_cluster : String) where
  contains-namespace_for :
      (namespace : String) (clusters : List String) (s : String)
      → contains (namespace_for worker_cluster namespace clusters) s
        ≡ (namespace == s && (contains clusters "*" || contains clusters worker_cluster))
  unfolding namespace_for
  contains-namespace_for namespace [] s = ground (arith)
  contains-namespace_for namespace (cluster ∷ rest) s =
      go (cluster == "*") (cluster == worker_cluster) (contains-namespace_for namespace rest s)
    where
      go :
          (starred named : Bool)
          → contains (namespace_for worker_cluster namespace rest) s
            ≡ (namespace == s && (contains rest "*" || contains rest worker_cluster))
          → contains
              (if◌then◌else◌ {A = List String}
                (starred || named)
                (namespace ∷ namespace_for worker_cluster namespace rest)
                (namespace_for worker_cluster namespace rest))
              s
            ≡ (namespace == s
                && ((starred || contains rest "*") || (named || contains rest worker_cluster)))
      go true named later = ground (arith, later)
      go false true later = ground (arith, later)
      go false false later = ground (arith, later)

  contains-worker_namespaces :
      (selections : List SliceNamespaceSelection) (s : String)
      → contains (worker_namespaces worker_cluster selections) s
        ≡ any
            (λ (selection : SliceNamespaceSelection).
              selection.namespace == s
              && (contains selection.clusters "*" || contains selection.clusters worker_cluster))
            selections
  unfolding worker_namespaces
  contains-worker_namespaces [] s = refl
  contains-worker_namespaces (selection ∷ rest) s =
      let listed = remove_duplicates_from_array selection.clusters in
      contains-++ (namespace_for worker_cluster selection.namespace listed)
        (worker_namespaces worker_cluster rest) s
      ∙ ground (
        arith,
        contains-namespace_for selection.namespace listed s,
        contains-remove_duplicates_from_array selection.clusters "*",
        contains-remove_duplicates_from_array selection.clusters worker_cluster,
        contains-worker_namespaces rest s,
      )

-- Whether the selections of a slice give a namespace to a cluster.
unfoldable pub is_selected :
    (worker_cluster namespace : String) → List SliceNamespaceSelection → Bool
is_selected worker_cluster namespace selections =
    any
      (λ (selection : SliceNamespaceSelection).
        selection.namespace == namespace
        && (contains selection.clusters "*" || contains selection.clusters worker_cluster))
      selections

-- A worker slice has an application namespace, and an allowed namespace, exactly when one of the slice's
-- selections is of this namespace and lists `*` or the cluster of the worker slice.
pub completed-namespaces :
    (copier : Copier) (slice : SliceConfig) (octet : Option ℕ) (subnet : String)
    (worker : WorkerSliceConfig) (namespace : String)
    → let profile = (completed copier slice octet subnet worker).spec.namespace_isolation_profile in
      (contains profile.application_namespaces namespace
        ≡ is_selected
            (label worker.metadata "worker-cluster")
            namespace
            slice.spec.namespace_isolation_profile.application_namespaces)
      × (contains profile.allowed_namespaces namespace
          ≡ is_selected
              (label worker.metadata "worker-cluster")
              namespace
              slice.spec.namespace_isolation_profile.allowed_namespaces)
unfolding completed worker_isolation_profile is_selected
completed-namespaces copier slice octet subnet worker namespace =
    let worker_cluster = label worker.metadata "worker-cluster" in
    (
      contains-worker_namespaces worker_cluster
          slice.spec.namespace_isolation_profile.application_namespaces namespace,
      contains-worker_namespaces worker_cluster
          slice.spec.namespace_isolation_profile.allowed_namespaces namespace,
    )
