-- ===== src/AccessControl/Obsolete.antt =====
-- The removal of role bindings and service accounts (service/access_control_service.go).
pub mod Entries
pub mod Kept
use kubeslice_controller.Common.{
  String, Bool, true, false, List, [], ◌∷◌, map, Option, none, some, Map, lookup, insert, get_or,
  ◌==◌,
}
use kubeslice_controller.Go.{Outcome, ok}
use kubeslice_controller.Go.Effect.{M, ◌>>=◌, ◌>>◌, pure, asks, each}
use kubeslice_controller.Resources.Meta.{ObjectMeta}
use kubeslice_controller.Resources.Access.{RoleBinding, Account, Owner}
use kubeslice_controller.Platform.{Platform, Resource, list_resources}
use kubeslice_controller.Platform.Reporting.{delete_reported}
use kubeslice_controller.Util.Reconciliation.{Result, done}
use kubeslice_controller.AccessControl.Roles.{owned_by, deleted, deletion_failed}
use kubeslice_controller.AccessControl.Accounts.{Access, access_annotation, access_name}

-- activeRoleBinding and activeServiceAccount: an entry that is active has no object.
pub data Activity (A : Type 0) : Type 0 where
  active : Activity A
  inactive : A → Activity A

-- `object.Annotations[…] == accessType`
abbrev pub has_access : String → ObjectMeta → Bool
has_access access_type metadata =
    get_or (lookup access_annotation metadata.annotations) "" == access_type

module _ {A : Type 0} (metadata : A → ObjectMeta) (access_type : String) where
  abbrev pub enter_if : Bool → A → Map (Activity A) → Map (Activity A)
  enter_if true object entries = insert (metadata object).name (inactive object) entries
  enter_if false object entries = entries

  -- The objects that are there, assumed for deletion.
  unfoldable pub enter : List A → Map (Activity A) → Map (Activity A)
  enter [] entries = entries
  enter (object ∷ rest) entries =
      enter rest (enter_if (has_access access_type (metadata object)) object entries)

-- Mark current names as active.
unfoldable pub mark : {A : Type 0} → List String → Map (Activity A) → Map (Activity A)
mark [] entries = entries
mark (name ∷ rest) entries = mark rest (insert name active entries)

-- The map of activeRoleBindings or activeServiceAccounts.
unfoldable pub activities :
    {A : Type 0}
    → (A → ObjectMeta)
    → (access_type : String) → (expected : List String) → List A
    → Map (Activity A)
unfolding enter mark
activities metadata access_type expected objects =
    mark expected (enter metadata access_type objects [])

module _ {W : Type 0} (platform : Platform W) where
  module _ {A : Type 0} (kind event : String) (resource : Resource W A)
      (metadata : A → ObjectMeta) where
    abbrev delete_object : A → M W (Unit {0})
    delete_object =
        delete_reported platform kind resource metadata (deleted event) (deletion_failed event)

    abbrev pub visit_entry : Option (Activity A) → M W (Unit {0})
    visit_entry none = pure tt
    visit_entry (some active) = pure tt
    visit_entry (some (inactive object)) = delete_object object

    -- The loop over a map of entries.
    unfoldable pub delete_inactive : Map (Activity A) → M W (Unit {0})
    delete_inactive entries =
        asks
          (λ w. ok (platform.range_keys (map (λ (entry : String × Activity A). entry.0) entries) w))
        >>= λ keys. each keys (λ key. visit_entry (lookup key entries))

  module _ (namespace : String) (owner : Owner) where
    abbrev pub bindings_of : M W (List RoleBinding)
    bindings_of = asks (list_resources platform.role_bindings (owned_by owner) (some namespace))

    abbrev pub accounts_of : M W (List Account)
    accounts_of = asks (list_resources platform.service_accounts (owned_by owner) (some namespace))

    abbrev pub delete_inactive_bindings : Access → List String → List RoleBinding → M W (Unit {0})
    delete_inactive_bindings access names bindings =
        delete_inactive "role_binding" "EventInactiveRoleBinding" platform.role_bindings
          (λ b. b.metadata)
          (activities (λ b. b.metadata) access.access_type
            (map (access_name access.role_binding_prefix) names) bindings)

    abbrev pub delete_inactive_accounts : Access → List String → List Account → M W (Unit {0})
    delete_inactive_accounts access names accounts =
        delete_inactive "service_account" "EventInactiveServiceAccount" platform.service_accounts
          (λ a. a.metadata)
          (activities (λ a. a.metadata) access.access_type
            (map (access_name access.service_account_prefix) names) accounts)

    -- cleanupObsoleteServiceAccountsAndRoleBindings
    unfoldable pub cleanup_obsolete_service_accounts_and_role_bindings :
        Access → (names : List String) → M W Result
    unfolding activities delete_inactive
    cleanup_obsolete_service_accounts_and_role_bindings access names = do
      bindings ← bindings_of
      accounts ← accounts_of
      delete_inactive_bindings access names bindings
      delete_inactive_accounts access names accounts
      pure done

    -- removeServiceAccountsAndRoleBindingsByLabel
    unfoldable pub remove_service_accounts_and_role_bindings_by_label : M W Result
    remove_service_accounts_and_role_bindings_by_label = do
      bindings ← bindings_of
      accounts ← accounts_of
      each bindings (
          delete_object "role_binding" "EventDefaultRoleBinding" platform.role_bindings
            (λ b. b.metadata))
      each accounts (
          delete_object "service_account" "EventServiceAccount" platform.service_accounts
            (λ a. a.metadata))
      pure done
