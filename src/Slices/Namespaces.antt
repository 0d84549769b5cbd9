-- ===== src/Slices/Namespaces.antt =====
-- The namespaces that a slice takes from the default slice of its project (service/slice_config_service.go).
-- A namespace of the default slice holds its clusters in an array, and RemoveElementFromArray moves the rest of
-- the array forward in place, while the loop over the array goes on.
pub mod Skipped
use kubeslice_controller.Common.{
  ℕ, zero, suc, ◌-◌, String, Bool, true, false, not, ◌&&◌, List, [], ◌∷◌, ◌++◌, map, Option, none,
  some, Map, length, get_elem?, take, drop, contains, filter, ltb, ◌==◌, ◌==ₗ◌,
}
use kubeslice_controller.Go.{Outcome, ok, err, panic}
use kubeslice_controller.Go.Effect.{M, ◌>>=◌, ◌>>◌, pure, asks}
use kubeslice_controller.Go.Text.{◌<>◌}
use kubeslice_controller.Resources.Meta.{Key}
use kubeslice_controller.Resources.Slice.{SliceConfig, SliceNamespaceSelection}
use kubeslice_controller.Platform.{Platform, get_resource_if_exist, update_resource}
use kubeslice_controller.Util.Arrays.{remove_element_from_array}
use kubeslice_controller.Util.Projects.{default_slice_name}

-- NamespaceAndClusterFormat
abbrev pub namespace_and_cluster : String → String → String
namespace_and_cluster namespace cluster = "namespace=" <> namespace <> "&cluster=" <> cluster

abbrev clusters_of : List String → List String → List String
clusters_of registered [] = []
clusters_of registered (cluster ∷ rest) = elim (cluster == "*") [
  | true ↦ registered
  | false ↦ cluster ∷ rest
]

-- constructApplicationNamespaceMap, as the list of its keys
unfoldable construct_application_namespace_map :
    List String → List SliceNamespaceSelection → List String
construct_application_namespace_map registered [] = []
construct_application_namespace_map registered (appns ∷ rest) =
    map (namespace_and_cluster appns.namespace) (clusters_of registered appns.clusters)
    ++ construct_application_namespace_map registered rest

-- The array of a namespace's clusters, and the length of the slice over it.
pub record Clusters : Type 0 where
  pub array : List String
  pub size : ℕ

-- The slice over the array.
abbrev pub held : Clusters → List String
held c = take c.size c.array

-- `appns.Clusters = util.RemoveElementFromArray(appns.Clusters, cluster)`: the last place of the slice
-- keeps its element in the array.
abbrev pub without_if : Bool → String → Clusters → Clusters
without_if false cluster c = c
without_if true cluster c = record {
  array = remove_element_from_array (held c) cluster ++ drop (c.size - 1) c.array;
  size = c.size - 1;
}

abbrev pub without : String → Clusters → Clusters
without cluster c = without_if (contains (held c) cluster) cluster c

module _ (to_remove : List String) where
  -- A round of the loop over the array.
  abbrev pub visit_if : Bool → String → Clusters → Clusters
  visit_if true cluster c = without cluster c
  visit_if false cluster c = c

  abbrev visit : String → Option String → Clusters → Clusters
  visit namespace none c = c
  visit namespace (some cluster) c =
      visit_if (contains to_remove (namespace_and_cluster namespace cluster)) cluster c

  -- The loop, which has as many rounds as the array has places.
  unfoldable pub remove_clusters : String → ℕ → ℕ → Clusters → Clusters
  remove_clusters namespace zero index c = c
  remove_clusters namespace (suc rounds) index c =
      remove_clusters namespace rounds (suc index) (visit namespace (get_elem? c.array index) c)

  abbrev pub with_held : List String → SliceNamespaceSelection → SliceNamespaceSelection
  with_held clusters appns = record appns { clusters = clusters }

  abbrev keep_unless : Bool → SliceNamespaceSelection → List SliceNamespaceSelection
  keep_unless true appns = []
  keep_unless false appns = appns ∷ []

  -- What is left of one namespace, and the namespace as the array shows it afterwards. A namespace without
  -- clusters makes `appns.Clusters[0]` panic.
  unfoldable remove_from :
      SliceNamespaceSelection → Outcome (List SliceNamespaceSelection × SliceNamespaceSelection)
  unfolding remove_clusters
  remove_from appns = elim appns.clusters [
    | [] ↦ panic
    | ◌∷◌ first rest ↦ elim rest [
      | [] ↦ ok (
        keep_unless (contains to_remove (namespace_and_cluster appns.namespace first)) appns,
        appns,
      )
      | ◌∷◌ second more ↦
          let start : Clusters = record { array = appns.clusters; size = length appns.clusters } in
          let last = remove_clusters appns.namespace (length appns.clusters) 0 start in
          ok (with_held (held last) appns ∷ [], with_held last.array appns)
    ]
  ]

  -- removeSliceApplicationNamespaces, with the namespaces that it was given as they are afterwards
  unfoldable remove_slice_application_namespaces :
      List SliceNamespaceSelection
      → Outcome (List SliceNamespaceSelection × List SliceNamespaceSelection)
  unfolding remove_from
  remove_slice_application_namespaces [] = ok ([], [])
  remove_slice_application_namespaces (appns ∷ rest) = elim (remove_from appns) [
    | err e ↦ err e
    | panic ↦ panic
    | ok one ↦ elim (remove_slice_application_namespaces rest) [
      | err e ↦ err e
      | panic ↦ panic
      | ok others ↦ ok (one.0 ++ others.0, one.1 ∷ others.1)
    ]
  ]

-- `reflect.DeepEqual` of two lists of namespaces.
abbrev same_selections : List SliceNamespaceSelection → List SliceNamespaceSelection → Bool
same_selections [] [] = true
same_selections (m ∷ ms) (n ∷ ns) =
    m.namespace == n.namespace && (m.clusters ==ₗ n.clusters && same_selections ms ns)
same_selections _ _ = false

-- The keys that both slices have.
unfoldable application_namespaces_to_remove : SliceConfig → SliceConfig → List String
unfolding construct_application_namespace_map
application_namespaces_to_remove slice default_slice =
    let taken =
      construct_application_namespace_map default_slice.spec.clusters
        default_slice.spec.namespace_isolation_profile.application_namespaces in
    filter (contains taken) (
      construct_application_namespace_map slice.spec.clusters
        slice.spec.namespace_isolation_profile.application_namespaces)

abbrev pub with_application_namespaces : List SliceNamespaceSelection → SliceConfig → SliceConfig
with_application_namespaces namespaces slice = record slice {
  spec = record slice.spec {
    namespace_isolation_profile = record slice.spec.namespace_isolation_profile {
      application_namespaces = namespaces;
    };
  };
}

module _ {W : Type 0} (platform : Platform W) where
  abbrev update_unless_same :
      SliceConfig → List SliceNamespaceSelection × List SliceNamespaceSelection → M W (Unit {0})
  update_unless_same default_slice (left, before) = elim (same_selections left before) [
    | true ↦ pure tt
    | false ↦
        update_resource platform.slice_configs (with_application_namespaces left default_slice)
  ]

  abbrev take_from_default : SliceConfig → Option SliceConfig → M W (Unit {0})
  take_from_default slice none = pure tt
  take_from_default slice (some default_slice) =
      elim (default_slice.metadata.name == slice.metadata.name) [
        | true ↦ pure tt
        | false ↦
            asks (λ w.
              remove_slice_application_namespaces
                (application_namespaces_to_remove slice default_slice)
                default_slice.spec.namespace_isolation_profile.application_namespaces)
            >>= update_unless_same default_slice
      ]

  -- handleDefaultSliceConfigAppns
  unfoldable pub handle_default_slice_config_appns :
      (namespace project_name : String) → SliceConfig → M W (Unit {0})
  unfolding remove_slice_application_namespaces application_namespaces_to_remove
  handle_default_slice_config_appns namespace project_name slice =
      asks (
        get_resource_if_exist platform.slice_configs
          (record { namespace = namespace; name = default_slice_name project_name }))
      >>= take_from_default slice
