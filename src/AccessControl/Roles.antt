-- ===== src/AccessControl/Roles.antt =====
-- The shared roles of a project (service/access_control_service.go).
use kubeslice_controller.Common.{String, List, Option, none, some, Map}
use kubeslice_controller.Go.Effect.{M, ◌>>=◌, ◌>>◌, pure, asks}
use kubeslice_controller.Go.Text.{◌<>◌}
use kubeslice_controller.Resources.Meta.{named}
use kubeslice_controller.Resources.Access.{PolicyRule, Role, Owner}
use kubeslice_controller.Platform.{
  Platform, get_resource_if_exist, create_resource, update_resource,
}
use kubeslice_controller.Platform.Reporting.{Notice, reported}
use kubeslice_controller.Util.OwnerLabels.{get_owner_label}
use kubeslice_controller.Util.Reconciliation.{Result, done}
use kubeslice_controller.AccessControl.Rules.{
  worker_cluster_role_rules, read_only_role_rules, read_write_role_rules,
}

abbrev role_kind : String
role_kind = "role"

-- The notices of a kind of object: events with the same first part.
abbrev pub created : String → Notice
created event = record { event = event <> "Created"; action = "created" }

abbrev pub creation_failed : String → Notice
creation_failed event = record { event = event <> "CreationFailed"; action = "creation_failed" }

abbrev pub updated : String → Notice
updated event = record { event = event <> "Updated"; action = "updated" }

abbrev pub update_failed : String → Notice
update_failed event = record { event = event <> "UpdateFailed"; action = "update_failed" }

abbrev pub deleted : String → Notice
deleted event = record { event = event <> "Deleted"; action = "deleted" }

abbrev pub deletion_failed : String → Notice
deletion_failed event = record { event = event <> "DeletionFailed"; action = "deletion_failed" }

-- util.GetOwnerLabel of the owner's kind and name
abbrev pub owned_by : Owner → Map String
owned_by owner = get_owner_label (owner.kind <> "-" <> owner.metadata.name)

module _ {W : Type 0} (platform : Platform W) where
  -- A role that is not there is created, and one that is there is overwritten.
  abbrev write_role : (event : String) → Role → Option Role → M W (Unit {0})
  write_role event expected none = λ w.
      reported platform role_kind (created event) (creation_failed event) expected.metadata.name
        (create_resource platform.roles expected w)
  write_role event expected (some actual) = λ w.
      reported platform role_kind (updated event) (update_failed event) expected.metadata.name
        (update_resource platform.roles expected w)

  -- The body that the three functions share.
  unfoldable reconcile_role :
      (event role_name : String) → List PolicyRule → (namespace : String) → Owner → M W Result
  reconcile_role event role_name rules namespace owner = do
    found ←
        asks (
          get_resource_if_exist platform.roles (record { namespace = namespace; name = role_name }))
    write_role event
        (record { metadata = named role_name namespace (owned_by owner); rules = rules }) found
    pure done

  -- ReconcileWorkerClusterRole
  unfoldable pub reconcile_worker_cluster_role : String → Owner → M W Result
  unfolding reconcile_role
  reconcile_worker_cluster_role =
      reconcile_role "EventWorkerClusterRole" "kubeslice-worker-cluster" worker_cluster_role_rules

  -- ReconcileReadOnlyRole
  unfoldable pub reconcile_read_only_role : String → Owner → M W Result
  unfolding reconcile_role
  reconcile_read_only_role =
      reconcile_role "EventReadOnlyRole" "kubeslice-read-only" read_only_role_rules

  -- ReconcileReadWriteRole
  unfoldable pub reconcile_read_write_role : String → Owner → M W Result
  unfolding reconcile_role
  reconcile_read_write_role =
      reconcile_role "EventReadWriteRole" "kubeslice-read-write" read_write_role_rules
