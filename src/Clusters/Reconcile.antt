-- ===== src/Clusters/Reconcile.antt =====
-- ReconcileCluster of service/cluster_service.go
use kubeslice_controller.Common.{String, Bool, true, false, Option, none, some}
use kubeslice_controller.Go.{ok}
use kubeslice_controller.Go.Effect.{M, ◌>>=◌, pure, asks}
use kubeslice_controller.Resources.Meta.{Namespace}
use kubeslice_controller.Resources.Cluster.{Cluster}
use kubeslice_controller.Platform.{Platform, exists?, get_resource_if_exist}
use kubeslice_controller.Util.Arrays.{contains_string}
use kubeslice_controller.Util.Projects.{check_for_project_namespace}
use kubeslice_controller.Util.Reconciliation.{Result, done, add_finalizer}
use kubeslice_controller.AccessControl.Users.{Prefixes}
use kubeslice_controller.Clusters.Deregistration.{cluster_finalizer, cluster_object, deregister}
use kubeslice_controller.Clusters.Registration.{register}

module _ {W : Type 0} (platform : Platform W) (prefixes : Prefixes)
    (controller_endpoint namespace name : String) where
  abbrev ensure_cluster_finalizer : Cluster → M W (Result × Cluster)
  ensure_cluster_finalizer cluster =
      elim (contains_string cluster.metadata.finalizers cluster_finalizer) [
        | true ↦ pure (done, cluster)
        | false ↦ add_finalizer platform platform.clusters cluster_object cluster_finalizer cluster
      ]

  abbrev reconcile_in_project : Cluster → Namespace → M W Result
  reconcile_in_project cluster project = elim cluster.metadata.deletion_timestamp [
    | none ↦ (do
      owned ← ensure_cluster_finalizer cluster
      register platform namespace prefixes controller_endpoint name project owned.1)
    | some t ↦ deregister platform namespace name cluster
  ]

  abbrev in_project_if : Bool → Cluster → Namespace → M W Result
  in_project_if true cluster project = reconcile_in_project cluster project
  in_project_if false cluster project = pure done

  abbrev in_project_namespace : Cluster → Option Namespace → M W Result
  in_project_namespace cluster none = pure done
  in_project_namespace cluster (some project) =
      in_project_if (check_for_project_namespace project) cluster project

  -- An error of the call for the namespace counts as a namespace that is not there.
  abbrev reconcile_found_cluster : Option Cluster → M W Result
  reconcile_found_cluster none = pure done
  reconcile_found_cluster (some cluster) =
      asks (λ w. ok (exists? platform.namespaces (record { namespace = ""; name = namespace }) w))
      >>= in_project_namespace cluster

  -- ReconcileCluster
  unfoldable reconcile_cluster : M W Result
  unfolding register deregister
  reconcile_cluster =
      asks (get_resource_if_exist platform.clusters (record { namespace = namespace; name = name }))
      >>= reconcile_found_cluster
