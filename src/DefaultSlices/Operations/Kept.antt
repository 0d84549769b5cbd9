-- ===== src/DefaultSlices/Operations/Kept.antt =====
-- What a cluster that leaves the default slice may change (service/default_slice_service.go).
use kubeslice_controller.Common.{String, Bool, true, false, List, Option, none, some, contains}
use kubeslice_controller.Go.{ApiError}
use kubeslice_controller.Go.Effect.{pure, asks, >>=_keeps}
use kubeslice_controller.Resources.Slice.{SliceConfig, SliceNamespaceSelection}
use kubeslice_controller.Platform.{Platform, get_resource_if_exist, answer, update_resource}
use kubeslice_controller.Util.Projects.{get_project_name}
use kubeslice_controller.Util.Reconciliation.{done}
use kubeslice_controller.DefaultSlices.Removals.{retain_namespaces}
use kubeslice_controller.DefaultSlices.Operations.{
  controller_namespace, store_if, find_default, wants_default_slice, in_default_project,
  leave_default_slice, leave_if, leave, namespaces_of, deregister_cluster_from_default_slice,
}

module _ {W : Type 0} (platform : Platform W) (namespace name : String) (P : W → Type 0)
    (updates : (slice : SliceConfig) (w : W)
      → P w
      → P (platform.slice_configs.update slice w).1) where
  store_if_keeps :
      (changed : Bool) (slice : SliceConfig) (w : W)
      → P w
      → P (store_if platform namespace name changed slice w).1
  unfolding update_resource
  store_if_keeps false slice w h = h
  store_if_keeps true slice w h =
      >>=_keeps P (update_resource platform.slice_configs slice) (λ _. pure done) w
        (go (platform.slice_configs.update slice w) (updates slice w h)) (λ u v k. k)
    where
      go : (r : Option ApiError × W) → P r.1 → P (answer platform.slice_configs r).1
      go (none, v) k = k
      go (some e, v) k = k

  leave_keeps :
      (cluster : String) (found : Option SliceConfig) (w : W)
      → P w
      → P (leave platform namespace name cluster found w).1
  leave_keeps cluster none w h = h
  leave_keeps cluster (some slice) w h = go (contains slice.spec.clusters cluster)
    where
      stored :
          (r : List SliceNamespaceSelection × Bool)
          → P (leave_default_slice platform namespace name cluster slice r w).1
      stored (retained, removed) = store_if_keeps removed _ w h

      go : (member : Bool) → P (leave_if platform namespace name member cluster slice w).1
      go false = h
      go true = stored (retain_namespaces name name (λ other. false) (namespaces_of slice))

  in_default_project_keeps :
      (cluster : String) (wanted : Bool) (w : W)
      → P w
      → P
          (in_default_project platform namespace name
            (leave platform namespace name cluster)
            wanted
            w).1
  in_default_project_keeps cluster false w h = h
  in_default_project_keeps cluster true w h =
      >>=_keeps P (find_default platform namespace name (get_project_name namespace))
        (leave platform namespace name cluster) w h (leave_keeps cluster)

  -- What the updates of slices keep, DeregisterClusterFromDefaultSlice keeps.
  pub deregister_cluster_from_default_slice_keeps :
      (cluster : String) (w : W)
      → P w
      → P (deregister_cluster_from_default_slice platform namespace name cluster w).1
  unfolding deregister_cluster_from_default_slice
  deregister_cluster_from_default_slice_keeps cluster w h =
      >>=_keeps P
        (asks (
          get_resource_if_exist platform.projects
            (record { namespace = controller_namespace; name = get_project_name namespace })))
        (λ project.
          in_default_project platform namespace name (leave platform namespace name cluster)
            (wants_default_slice platform namespace name project))
        w h (λ project v k. in_default_project_keeps cluster _ v k)
