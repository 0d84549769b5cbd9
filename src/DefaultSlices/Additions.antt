-- ===== src/DefaultSlices/Additions.antt =====
-- The namespaces that a cluster adds to the default slice (DefaultSliceOperations of
-- service/default_slice_service.go).
use kubeslice_controller.Common.{
  ℕ, zero, suc, String, Bool, true, false, List, [], ◌∷◌, ◌++◌, map, Option, none, some, Map,
  insert, lookup, contains, ◌==◌,
}
use kubeslice_controller.Resources.Slice.{SliceNamespaceSelection}
use kubeslice_controller.Resources.Cluster.{NamespacesConfig}
use kubeslice_controller.Slices.Namespaces.{namespace_and_cluster}

-- namespaceToClusterMap, as the list of its keys
unfoldable pub namespace_to_cluster_map : List SliceNamespaceSelection → List String
namespace_to_cluster_map [] = []
namespace_to_cluster_map (appns ∷ rest) =
    map (namespace_and_cluster appns.namespace) appns.clusters ++ namespace_to_cluster_map rest

-- namespaceIndexMap: the last place of each namespace
unfoldable pub namespace_index_map : ℕ → Map ℕ → List SliceNamespaceSelection → Map ℕ
namespace_index_map index indices [] = indices
namespace_index_map index indices (appns ∷ rest) =
    namespace_index_map (suc index) (insert appns.namespace index indices) rest

-- `xs[i] = …` of an index in range
unfoldable pub modify_at : {A : Type 0} → ℕ → (A → A) → List A → List A
modify_at i f [] = []
modify_at zero f (x ∷ xs) = f x ∷ xs
modify_at (suc i) f (x ∷ xs) = x ∷ modify_at i f xs

module _ (cluster : String) where
  abbrev pub alone : String → SliceNamespaceSelection
  alone namespace = record { namespace = namespace; clusters = cluster ∷ [] }

  abbrev joined_by : SliceNamespaceSelection → SliceNamespaceSelection
  joined_by previous = record previous { clusters = previous.clusters ++ (cluster ∷ []) }

  -- The namespaces that are in no slice.
  unfoldable pub free_namespaces : List NamespacesConfig → List SliceNamespaceSelection
  free_namespaces [] = []
  free_namespaces (ns ∷ rest) = elim (ns.slice_name == "") [
    | true ↦ alone ns.name ∷ free_namespaces rest
    | false ↦ free_namespaces rest
  ]

  abbrev add_at : Option ℕ → String → List SliceNamespaceSelection → List SliceNamespaceSelection
  add_at none name namespaces = namespaces ++ (alone name ∷ [])
  add_at (some index) name namespaces = modify_at index joined_by namespaces

  module _ (known : List String) (indices : Map ℕ) where
    -- Whether a namespace is free, and the default slice does not have it for the cluster.
    abbrev pub is_new : NamespacesConfig → Bool
    is_new ns = elim (ns.slice_name == "") [
      | false ↦ false
      | true ↦ elim (contains known (namespace_and_cluster ns.name cluster)) [
        | true ↦ false
        | false ↦ true
      ]
    ]

    abbrev pub add_if :
        Bool
        → NamespacesConfig
        → List SliceNamespaceSelection × Bool
        → List SliceNamespaceSelection × Bool
    add_if false ns (namespaces, added) = (namespaces, added)
    add_if true ns (namespaces, added) = (add_at (lookup ns.name indices) ns.name namespaces, true)

    -- The loop over the cluster's namespaces. The two maps are those from before it.
    unfoldable pub add_namespaces :
        List NamespacesConfig
        → List SliceNamespaceSelection × Bool
        → List SliceNamespaceSelection × Bool
    add_namespaces [] state = state
    add_namespaces (ns ∷ rest) state = add_namespaces rest (add_if (is_new ns) ns state)
