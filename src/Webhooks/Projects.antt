-- ===== src/Webhooks/Projects.antt =====
-- The validations of the creation and of the update of projects (service/project_webhook_validation.go), and
-- IsDNSCompliant (util/validations.go).
pub mod Owned
use Prim.Native.Char.{Char, code}
use Prim.Native.String.{count, len}
use text.Mathlib.Text.{find?}
use kubeslice_controller.Common.{
  ℕ, suc, String, Bool, true, false, not, ◌&&◌, ◌||◌, List, [], ◌∷◌, Option, none, some, Map, ltb,
  leb, ◌=?◌, ◌==◌, if◌then◌else◌,
}
use kubeslice_controller.Go.{Outcome, ok, invalid, reject_if, for_each, ◌>>◌}
use kubeslice_controller.Go.Text.{◌<>◌}
use kubeslice_controller.Resources.Meta.{ObjectMeta}
use kubeslice_controller.Resources.Project.{Project}
use kubeslice_controller.Platform.{Platform, Resource, exists?}
use kubeslice_controller.Util.Labels.{is_some, agrees}
use kubeslice_controller.AccessControl.Roles.{owned_by}
use kubeslice_controller.AccessControl.Users.{Prefixes}
use kubeslice_controller.Projects.Reconcile.{project_owner}

-- `[a-zA-Z0-9]`
abbrev is_alphanumeric : Char → Bool
is_alphanumeric c =
    (leb b'a' (code c) && leb (code c) b'z')
    || ((leb b'A' (code c) && leb (code c) b'Z') || (leb b'0' (code c) && leb (code c) b'9'))

-- `[a-zA-Z0-9\-\.]`
abbrev is_inner : Char → Bool
is_inner c = is_alphanumeric c || (code c =? b'-' || code c =? b'.')

-- What follows the first character: inner characters, and a last one.
ends_alphanumeric : String → Bool
ends_alphanumeric String.[] = false
ends_alphanumeric (String.◌∷◌ c rest) =
    let later = is_inner c && ends_alphanumeric rest in
    if count rest =? 0 then is_alphanumeric c else later

-- IsDNSCompliant: the regular expression asks for 2 to 64 characters.
unfoldable pub is_dns_compliant : String → Bool
unfolding ends_alphanumeric
is_dns_compliant String.[] = false
is_dns_compliant (String.◌∷◌ c rest) =
    is_alphanumeric c && (leb (count rest) 63 && ends_alphanumeric rest)

-- validateAppliedInControllerNamespace; the namespace is an environment variable.
unfoldable validate_applied_in_controller_namespace :
    (manager_namespace : String) → Project → Outcome (Unit {0})
validate_applied_in_controller_namespace manager_namespace project =
    reject_if (not (project.metadata.namespace == manager_namespace))
      (invalid "namespace" "project must be applied on kubeslice-manager namespace")

-- validateProjectName
unfoldable validate_project_name : String → Outcome (Unit {0})
validate_project_name name =
    reject_if (is_some (find? name ".")) (invalid "name" "cannot contain dot(.)")
    >> reject_if (ltb 30 (len name)) (invalid "name" "cannot contain more than 30 characters")

-- validateDNSCompliantSANames
abbrev require_dns_compliant : (child : String) → String → Outcome (Unit {0})
require_dns_compliant child name =
    reject_if (not (is_dns_compliant name))
      (invalid ("spec.serviceAccount." <> child) "is not valid.")

unfoldable pub validate_dns_compliant_sa_names : Project → Outcome (Unit {0})
unfolding is_dns_compliant
validate_dns_compliant_sa_names project =
    for_each project.spec.service_account.read_only (require_dns_compliant "readOnly")
    >> for_each project.spec.service_account.read_write (require_dns_compliant "readWrite")

-- ValidateProjectCreate
unfoldable validate_project_create : (manager_namespace : String) → Project → Outcome (Unit {0})
unfolding validate_applied_in_controller_namespace validate_project_name
    validate_dns_compliant_sa_names
validate_project_create manager_namespace project =
    validate_applied_in_controller_namespace manager_namespace project
    >> validate_project_name project.metadata.name
    >> validate_dns_compliant_sa_names project

-- An object that is there has the labels of the project.
abbrev pub owned_if_found :
    {A : Type 0} → (A → ObjectMeta) → (path : String) → Map String → Option A → Outcome (Unit {0})
owned_if_found metadata path labels none = ok tt
owned_if_found metadata path labels (some object) =
    reject_if (not (agrees labels (metadata object).labels)) (invalid path "already exists")

module _ {W : Type 0} (platform : Platform W) (w : W) where
  -- The loop of validateRoleBindingIfExists and of validateSANamesIfAlreadyExists. An error of the call for
  -- the object counts as an object that is not there.
  unfoldable pub validate_if_exists :
      {A : Type 0}
      → Resource W A
      → (A → ObjectMeta)
      → (path : String) → Project
      → (namespace prefix : String) → (names : List String) → Outcome (Unit {0})
  validate_if_exists resource metadata path project namespace prefix names = for_each names (λ name.
      owned_if_found metadata path (owned_by (project_owner project))
        (exists? resource (record { namespace = namespace; name = prefix <> name }) w))

  module _ (namespace_prefix : String) (prefixes : Prefixes) (project : Project) where
    -- validateServiceAccount
    unfoldable pub validate_service_account : Outcome (Unit {0})
    unfolding validate_if_exists
    validate_service_account =
        validate_if_exists platform.service_accounts (λ a. a.metadata)
          "spec.serviceAccount.readOnly" project (namespace_prefix <> project.metadata.name)
          prefixes.service_account_read_only_user project.spec.service_account.read_only
        >> validate_if_exists platform.service_accounts (λ a. a.metadata)
            "spec.serviceAccount.readWrite" project (namespace_prefix <> project.metadata.name)
            prefixes.service_account_read_write_user project.spec.service_account.read_write

    -- validateRoleBinding
    unfoldable pub validate_role_binding : Outcome (Unit {0})
    unfolding validate_if_exists
    validate_role_binding =
        validate_if_exists platform.role_bindings (λ b. b.metadata) "spec.roleBinding.readOnly"
          project (namespace_prefix <> project.metadata.name) prefixes.role_binding_read_only_user
          project.spec.service_account.read_only
        >> validate_if_exists platform.role_bindings (λ b. b.metadata) "spec.roleBinding.readWrite"
            project (namespace_prefix <> project.metadata.name)
            prefixes.role_binding_read_write_user project.spec.service_account.read_write

    -- ValidateProjectUpdate
    unfoldable pub validate_project_update : Outcome (Unit {0})
    unfolding validate_service_account validate_role_binding validate_dns_compliant_sa_names
    validate_project_update =
        validate_service_account >> validate_role_binding >> validate_dns_compliant_sa_names project
