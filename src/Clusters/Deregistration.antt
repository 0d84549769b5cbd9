-- ===== src/Clusters/Deregistration.antt =====
-- A cluster that is being deleted (ReconcileCluster and DeleteClusters of service/cluster_service.go).
pub mod Waiting
use kubeslice_controller.Common.{
  ℕ, ◌+◌, ◌*◌, String, Bool, true, false, List, [], ◌∷◌, Option, none, some, ltb, ◌==◌,
}
use kubeslice_controller.Common.Int.{ℤ, pos}
use kubeslice_controller.Go.{Outcome, ok, err, panic}
use kubeslice_controller.Go.Effect.{M, ◌>>=◌, ◌>>◌, pure, asks, each}
use kubeslice_controller.Resources.Meta.{Key}
use kubeslice_controller.Resources.Cluster.{
  Cluster, registration_status_deregister_failed, registration_status_deregistered,
}
use kubeslice_controller.Resources.Access.{Owner}
use kubeslice_controller.Platform.{Platform, Fetch, found, missing, failed, answer, list_resources}
use kubeslice_controller.Platform.Reporting.{Notice, notify, reported, delete_reported}
use kubeslice_controller.Util.Arrays.{contains_string}
use kubeslice_controller.Util.Reconciliation.{Result, done, Object, remove_finalizer}
use kubeslice_controller.AccessControl.Users.{
  remove_worker_cluster_service_account_and_role_bindings,
}
use kubeslice_controller.DefaultSlices.Operations.{deregister_cluster_from_default_slice}

abbrev pub cluster_kind : String
cluster_kind = "cluster"

abbrev pub cluster_finalizer : String
cluster_finalizer = "controller.kubeslice.io/cluster-finalizer"

abbrev cluster_deregister_finalizer : String
cluster_deregister_finalizer = "worker.kubeslice.io/cluster-deregister-finalizer"

abbrev cluster_deleted : Notice
cluster_deleted = record { event = "EventClusterDeleted"; action = "deleted" }

abbrev cluster_deletion_failed : Notice
cluster_deletion_failed = record {
  event = "EventClusterDeletionFailed";
  action = "deletion_failed";
}

abbrev pub cluster_object : Object Cluster
cluster_object = record {
  metadata = λ cluster. cluster.metadata;
  with_finalizers = λ finalizers cluster. record cluster {
    metadata = record cluster.metadata { finalizers = finalizers };
  };
}

abbrev pub cluster_owner : Cluster → Owner
cluster_owner cluster = record { kind = "Cluster"; metadata = cluster.metadata }

abbrev pub in_progress : Cluster → Cluster
in_progress cluster = record cluster {
  status = record cluster.status { is_deregister_in_progress = true };
}

-- 10 minutes
abbrev pub deregister_timeout_seconds : ℕ
deregister_timeout_seconds = 10 * 60

module _ {W : Type 0} (platform : Platform W) where
  -- DeleteClusters
  unfoldable pub delete_clusters : String → M W (Unit {0})
  delete_clusters namespace = do
    clusters ← asks (list_resources platform.clusters [] (some namespace))
    each clusters (
        delete_reported platform cluster_kind platform.clusters (λ cluster. cluster.metadata)
          cluster_deleted cluster_deletion_failed)

  abbrev reread : Cluster → Fetch Cluster → Cluster
  reread written (found cluster) = cluster
  reread written missing = written
  reread written (failed e) = written

  -- UpdateStatus, which leaves the object read again; an error of the read is only logged.
  unfoldable pub update_status : Cluster → M W Cluster
  update_status cluster =
      (λ w. answer platform.clusters (platform.update_cluster_status cluster w)) >> λ w. (
        ok (
            reread cluster (
              platform.clusters.get
                (record { namespace = cluster.metadata.namespace; name = cluster.metadata.name })
                w)),
        w,
      )

  abbrev pub say : Notice → Cluster → W → W
  say notice cluster w = notify platform cluster_kind notice cluster.metadata.name w

  -- The worker says that its charts are not uninstalled, or that they are, or it has not begun.
  abbrev pub report_status : (failed gone begun : Bool) → Cluster → M W Result
  report_status true gone begun cluster w = (
    ok done,
    say (record { event = "EventClusterDeregisterFailed"; action = "deregister_failed" }) cluster w,
  )
  report_status false true begun cluster w = (
    ok done,
    say (record { event = "EventClusterDeregistered"; action = "deregistered" }) cluster w,
  )
  report_status false false true cluster w = (ok done, w)
  report_status false false false cluster w = (
    ok (record { requeue = false; requeue_after = pos 610 }),
    say
        (record {
          event = "EventClusterDeregistrationInProgress";
          action = "deregister_in_progress";
        })
        cluster (update_status (in_progress cluster) w).1,
  )

  -- The time for the worker is over: its finalizer is removed.
  abbrev end_waiting : Cluster → M W Result
  end_waiting cluster = λ w. after cluster (
      remove_finalizer platform platform.clusters cluster_object cluster_deregister_finalizer
        cluster w)
    where
      after : Cluster → Outcome (Result × Cluster) × W → Outcome Result × W
      after cluster (err e, w) = (err e, say cluster_deletion_failed cluster w)
      after cluster (panic, w) = (panic, w)
      after cluster (ok r, w) = (
        ok (record { requeue = true; requeue_after = pos 0 }),
        say (record { event = "EventClusterDeregisterTimeout"; action = "deregister_timeout" })
            cluster w,
      )

  -- A deletion without a time does not come here; the zero time is long past.
  abbrev pub is_overdue : Option ℕ → ℕ → Bool
  is_overdue none now = true
  is_overdue (some t) now = ltb (t + deregister_timeout_seconds) now

  abbrev pub wait_if : Bool → Cluster → M W Result
  wait_if true cluster = end_waiting cluster
  wait_if false cluster =
      let status = cluster.status.registration_status in
      report_status (status == registration_status_deregister_failed)
        (status == registration_status_deregistered) cluster.status.is_deregister_in_progress
        cluster

  -- The worker's finalizer is there: it has ten minutes to uninstall its charts.
  unfoldable pub wait_for_worker : Cluster → M W Result
  wait_for_worker cluster w =
      wait_if (is_overdue cluster.metadata.deletion_timestamp (platform.now w)) cluster w

  -- cleanUpClusterResources
  unfoldable clean_up_cluster_resources : (name namespace : String) → Owner → M W Result
  unfolding remove_worker_cluster_service_account_and_role_bindings
  clean_up_cluster_resources name namespace owner =
      remove_worker_cluster_service_account_and_role_bindings platform name namespace owner
      >> pure done

  -- The worker's finalizer is gone.
  unfoldable finish_deregistration : (namespace name : String) → Cluster → M W Result
  unfolding clean_up_cluster_resources
  finish_deregistration namespace name cluster =
      clean_up_cluster_resources name namespace (cluster_owner cluster)
      >> (λ w.
          reported platform cluster_kind cluster_deleted cluster_deletion_failed
            cluster.metadata.name
            ((remove_finalizer platform platform.clusters cluster_object cluster_finalizer cluster
                >> pure tt)
              w))
      >> pure done

  -- A cluster that is being deleted.
  unfoldable pub deregister : (namespace name : String) → Cluster → M W Result
  unfolding wait_for_worker finish_deregistration
  deregister namespace name cluster =
      deregister_cluster_from_default_slice platform namespace name name
      >> elim (contains_string cluster.metadata.finalizers cluster_deregister_finalizer) [
        | false ↦ finish_deregistration namespace name cluster
        | true ↦ wait_for_worker cluster
      ]
