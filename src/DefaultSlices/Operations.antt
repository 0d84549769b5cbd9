-- ===== src/DefaultSlices/Operations.antt =====
-- DefaultSliceOperations and DeregisterClusterFromDefaultSlice of service/default_slice_service.go
pub mod Kept
pub mod Lacking
use kubeslice_controller.Common.{
  ℕ, String, Bool, true, false, not, ◌&&◌, List, [], ◌∷◌, ◌++◌, map, filter, Option, none, some,
  contains, ◌==◌,
}
use kubeslice_controller.Go.{Outcome, ok, err, panic}
use kubeslice_controller.Go.Effect.{M, ◌>>=◌, ◌>>◌, pure, asks}
use kubeslice_controller.Go.Text.{◌<>◌}
use kubeslice_controller.Resources.Meta.{Key, ObjectMeta, named}
use kubeslice_controller.Resources.Slice.{
  SliceConfig, NetworkType, no_network, SliceNamespaceSelection,
}
use kubeslice_controller.Resources.Cluster.{Cluster, NamespacesConfig}
use kubeslice_controller.Resources.Project.{Project}
use kubeslice_controller.Platform.{
  Platform, get_resource_if_exist, create_resource, update_resource,
}
use kubeslice_controller.Util.Arrays.{remove_element_from_array}
use kubeslice_controller.Util.Projects.{get_project_name, default_slice_name}
use kubeslice_controller.Util.Reconciliation.{Result, done}
use kubeslice_controller.Slices.Namespaces.{with_application_namespaces}
use kubeslice_controller.DefaultSlices.Additions.{
  namespace_to_cluster_map, namespace_index_map, free_namespaces, add_namespaces,
}
use kubeslice_controller.DefaultSlices.Removals.{retain_namespaces}

-- ControllerNamespace
abbrev controller_namespace : String
controller_namespace = "kubeslice-controller"

abbrev with_clusters : List String → SliceConfig → SliceConfig
with_clusters clusters slice = record slice { spec = record slice.spec { clusters = clusters } }

-- The default slice that is created for a first cluster.
abbrev new_default_slice : (namespace project_name cluster : String) → Cluster → SliceConfig
new_default_slice namespace project_name requested cluster = record {
  metadata = record (named (default_slice_name project_name) namespace []) {
    annotations =
        ("slice-managed-by", project_name)
        ∷ ("desc", "This is the default slice created for project " <> project_name)
        ∷ [];
  };
  spec = record {
    overlay_network_deployment_mode = no_network;
    slice_subnet = "";
    slice_type = "";
    slice_gateway_provider = none;
    slice_ipam_type = "";
    clusters = requested ∷ [];
    standard_qos_profile_name = "";
    qos_profile_details = none;
    namespace_isolation_profile = record {
      isolation_enabled = false;
      application_namespaces = free_namespaces cluster.metadata.name cluster.status.namespaces;
      allowed_namespaces = [];
    };
    external_gateway_config = [];
    max_clusters = 8;
    rotation_interval = 0;
    renew_before = none;
    vpn_config = none;
  };
}

abbrev with_cluster_if : Bool → String → SliceConfig → SliceConfig
with_cluster_if true cluster slice = slice
with_cluster_if false cluster slice = with_clusters (slice.spec.clusters ++ (cluster ∷ [])) slice

abbrev pub with_cluster : String → SliceConfig → SliceConfig
with_cluster cluster slice = with_cluster_if (contains slice.spec.clusters cluster) cluster slice

abbrev pub namespaces_of : SliceConfig → List SliceNamespaceSelection
namespaces_of slice = slice.spec.namespace_isolation_profile.application_namespaces

-- The namespaces of the default slice with those that the cluster adds, and whether there are any.
unfoldable pub added_by : Cluster → SliceConfig → List SliceNamespaceSelection × Bool
unfolding namespace_to_cluster_map namespace_index_map add_namespaces
added_by cluster slice =
    add_namespaces cluster.metadata.name (namespace_to_cluster_map (namespaces_of slice))
      (namespace_index_map 0 [] (namespaces_of slice)) cluster.status.namespaces
      (namespaces_of slice, false)

-- namespacesInCluster: the namespaces that the cluster says are in the default slice
abbrev pub in_default_slice : String → Cluster → String → Bool
in_default_slice default cluster = contains (
    map (λ (ns : NamespacesConfig). ns.name)
      (filter (λ (ns : NamespacesConfig). ns.slice_name == default) cluster.status.namespaces))

module _ {W : Type 0} (platform : Platform W) (namespace name : String) where
  abbrev store : SliceConfig → M W Result
  store slice = update_resource platform.slice_configs slice >> pure done

  abbrev pub store_if : Bool → SliceConfig → M W Result
  store_if true slice = store slice
  store_if false slice = pure done

  abbrev pub add_or_remove :
      Cluster
      → SliceConfig
      → List SliceNamespaceSelection × Bool
      → List SliceNamespaceSelection × Bool
      → M W Result
  add_or_remove cluster slice (with_added, true) retained =
      store (with_application_namespaces with_added slice)
  add_or_remove cluster slice (with_added, false) (retained, removed) =
      store_if removed (with_application_namespaces retained slice)

  -- A default slice that is there already.
  unfoldable pub update_default_slice : String → Cluster → SliceConfig → M W Result
  unfolding added_by retain_namespaces
  update_default_slice default cluster slice =
      add_or_remove cluster (with_cluster name slice) (added_by cluster slice) (
        retain_namespaces name cluster.metadata.name (in_default_slice default cluster)
          (namespaces_of slice))

  abbrev create_or_update : String → Cluster → Option SliceConfig → M W Result
  create_or_update project_name cluster none =
      create_resource platform.slice_configs (new_default_slice namespace project_name name cluster)
      >> pure done
  create_or_update project_name cluster (some slice) =
      update_default_slice (default_slice_name project_name) cluster slice

  abbrev find_default : String → M W (Option SliceConfig)
  find_default project_name = asks (
      get_resource_if_exist platform.slice_configs
        (record { namespace = namespace; name = default_slice_name project_name }))

  abbrev wants_default_slice : Option Project → Bool
  wants_default_slice none = false
  wants_default_slice (some project) = project.spec.default_slice_creation

  -- What is done where the project has a default slice.
  abbrev in_default_project : (Option SliceConfig → M W Result) → Bool → M W Result
  in_default_project body false = pure done
  in_default_project body true = find_default (get_project_name namespace) >>= body

  abbrev with_project : (Option SliceConfig → M W Result) → M W Result
  with_project body =
      asks (
        get_resource_if_exist platform.projects
          (record { namespace = controller_namespace; name = get_project_name namespace }))
      >>= λ project. in_default_project body (wants_default_slice project)

  abbrev unless_leaving : Bool → Option ℕ → M W Result → M W Result
  unless_leaving true deleted body = pure done
  unless_leaving false (some t) body = pure done
  unless_leaving false none body = body

  -- DefaultSliceOperations
  unfoldable pub default_slice_operations : Cluster → M W Result
  unfolding update_default_slice
  default_slice_operations cluster =
      unless_leaving cluster.status.is_deregister_in_progress cluster.metadata.deletion_timestamp
        (with_project (create_or_update (get_project_name namespace) cluster))

  abbrev leave_default_slice :
      String → SliceConfig → List SliceNamespaceSelection × Bool → M W Result
  leave_default_slice cluster slice (retained, removed) = store_if removed (
      with_clusters (remove_element_from_array slice.spec.clusters cluster)
        (with_application_namespaces retained slice))

  abbrev leave_if : Bool → String → SliceConfig → M W Result
  leave_if false cluster slice = pure done
  leave_if true cluster slice =
      leave_default_slice cluster slice
        (retain_namespaces name name (λ other. false) (namespaces_of slice))

  abbrev leave : String → Option SliceConfig → M W Result
  leave cluster none = pure done
  leave cluster (some slice) = leave_if (contains slice.spec.clusters cluster) cluster slice

  -- DeregisterClusterFromDefaultSlice
  unfoldable pub deregister_cluster_from_default_slice : (cluster : String) → M W Result
  unfolding retain_namespaces
  deregister_cluster_from_default_slice cluster = with_project (leave cluster)
