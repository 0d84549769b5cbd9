-- ===== src/AccessControl/Users.antt =====
-- The access of the users of a project and of its clusters (service/access_control_service.go).
use kubeslice_controller.Common.{String, List, [], ◌∷◌}
use kubeslice_controller.Go.Effect.{M, ◌>>◌, pure}
use kubeslice_controller.Resources.Access.{Owner}
use kubeslice_controller.Platform.{Platform}
use kubeslice_controller.Util.Reconciliation.{Result, done}
use kubeslice_controller.AccessControl.Accounts.{
  Access, create_or_update_service_accounts_and_role_bindings,
}
use kubeslice_controller.AccessControl.Obsolete.{
  cleanup_obsolete_service_accounts_and_role_bindings,
  remove_service_accounts_and_role_bindings_by_label,
}

-- The patterns that the program's arguments set, without their `%s`.
pub record Prefixes : Type 0 where
  pub role_binding_worker_cluster : String
  pub role_binding_read_only_user : String
  pub role_binding_read_write_user : String
  pub service_account_worker_cluster : String
  pub service_account_read_only_user : String
  pub service_account_read_write_user : String

module _ (prefixes : Prefixes) where
  abbrev pub read_only_user : Access
  read_only_user = record {
    service_account_prefix = prefixes.service_account_read_only_user;
    role_binding_prefix = prefixes.role_binding_read_only_user;
    access_type = "read-only";
  }

  abbrev pub read_write_user : Access
  read_write_user = record {
    service_account_prefix = prefixes.service_account_read_write_user;
    role_binding_prefix = prefixes.role_binding_read_write_user;
    access_type = "read-write";
  }

  abbrev pub worker_cluster : Access
  worker_cluster = record {
    service_account_prefix = prefixes.service_account_worker_cluster;
    role_binding_prefix = prefixes.role_binding_worker_cluster;
    access_type = "cluster-read-write";
  }

module _ {W : Type 0} (platform : Platform W) where
  -- The body that the three reconciliations share.
  unfoldable reconcile_access :
      Access → (role_name namespace : String) (names : List String) → Owner → M W Result
  reconcile_access access role_name namespace names owner =
      cleanup_obsolete_service_accounts_and_role_bindings platform namespace owner access names
      >> create_or_update_service_accounts_and_role_bindings platform access namespace owner names
          role_name
      >> pure done

  module _ (prefixes : Prefixes) where
    -- ReconcileReadOnlyUserServiceAccountAndRoleBindings
    unfoldable pub reconcile_read_only_user_service_account_and_role_bindings :
        (namespace : String) (names : List String) → Owner → M W Result
    unfolding reconcile_access
    reconcile_read_only_user_service_account_and_role_bindings =
        reconcile_access (read_only_user prefixes) "kubeslice-read-only"

    -- ReconcileReadWriteUserServiceAccountAndRoleBindings
    unfoldable pub reconcile_read_write_user_service_account_and_role_bindings :
        (namespace : String) (names : List String) → Owner → M W Result
    unfolding reconcile_access
    reconcile_read_write_user_service_account_and_role_bindings =
        reconcile_access (read_write_user prefixes) "kubeslice-read-write"

    -- ReconcileWorkerClusterServiceAccountAndRoleBindings
    unfoldable pub reconcile_worker_cluster_service_account_and_role_bindings :
        (cluster_name namespace : String) → Owner → M W Result
    unfolding reconcile_access
    reconcile_worker_cluster_service_account_and_role_bindings cluster_name namespace owner =
        reconcile_access (worker_cluster prefixes) "kubeslice-worker-cluster" namespace
          (cluster_name ∷ []) owner

  -- RemoveWorkerClusterServiceAccountAndRoleBindings, which does not look at the name
  unfoldable pub remove_worker_cluster_service_account_and_role_bindings :
      (cluster_name namespace : String) → Owner → M W Result
  unfolding remove_service_accounts_and_role_bindings_by_label
  remove_worker_cluster_service_account_and_role_bindings cluster_name namespace owner =
      remove_service_accounts_and_role_bindings_by_label platform namespace owner
