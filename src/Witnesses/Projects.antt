-- ===== src/Witnesses/Projects.antt =====
-- The update of a project at a concrete input, and runs of IsDNSCompliant.
use kubeslice_controller.Common.{String, ◌≡◌, refl, true, false, [], ◌∷◌, lookup, insert}
use kubeslice_controller.Go.{ok, for_each}
use kubeslice_controller.Go.Text.{to_lower}
use kubeslice_controller.Resources.Access.{RoleBinding, Account}
use kubeslice_controller.Resources.Project.{Project}
use kubeslice_controller.Platform.{Platform, found, get_resource_if_exist, exists?}
use kubeslice_controller.Util.Labels.{agrees}
use kubeslice_controller.Util.OwnerLabels.{get_owner_label}
use kubeslice_controller.AccessControl.Roles.{owned_by}
use kubeslice_controller.AccessControl.Users.{Prefixes}
use kubeslice_controller.Projects.Reconcile.{project_owner}
use kubeslice_controller.Webhooks.Projects.{
  is_dns_compliant, validate_if_exists, validate_service_account, validate_role_binding,
  validate_dns_compliant_sa_names, validate_project_update,
}
use kubeslice_controller.Webhooks.Projects.Owned.{validate_project_update-IsOwned}
use kubeslice_controller.Witnesses.Data.{Server, nothing, meta, server}

capital_letters : is_dns_compliant "Alice" ≡ true
unfolding is_dns_compliant
capital_letters = refl

one_character : is_dns_compliant "a" ≡ false
unfolding is_dns_compliant
one_character = refl

abbrev avesha : Project
avesha = record {
  kind = "Project";
  metadata = meta "avesha" "kubeslice-controller" [];
  spec = record {
    service_account = record { read_only = "alice" ∷ []; read_write = [] };
    default_slice_creation = false;
  };
}

abbrev prefixes : Prefixes
prefixes = record {
  role_binding_worker_cluster = "kubeslice-worker-";
  role_binding_read_only_user = "kubeslice-ro-";
  role_binding_read_write_user = "kubeslice-rw-";
  service_account_worker_cluster = "kubeslice-worker-";
  service_account_read_only_user = "kubeslice-ro-";
  service_account_read_write_user = "kubeslice-rw-";
}

abbrev account : String → Account
account name = record {
  metadata = meta name "kubeslice-avesha" (owned_by (project_owner avesha));
  secrets = [];
}

abbrev binding : String → RoleBinding
binding name = record {
  metadata = meta name "kubeslice-avesha" (owned_by (project_owner avesha));
  role_ref = record { name = "kubeslice-read-only"; kind = "Role" };
  subjects = [];
}

abbrev owning : Platform Server
owning = record server {
  service_accounts = record nothing { get = λ key w. found (account key.name) };
  role_bindings = record nothing { get = λ key w. found (binding key.name) };
}

accepted : validate_project_update owning 5 "kubeslice-" prefixes avesha ≡ ok tt
unfolding validate_project_update validate_service_account validate_role_binding validate_if_exists
    validate_dns_compliant_sa_names is_dns_compliant exists? get_resource_if_exist agrees for_each
    get_owner_label lookup insert
accepted = refl

project_update_example :
    (agrees (owned_by (project_owner avesha)) (account "kubeslice-ro-alice").metadata.labels ≡ true)
    × (agrees (owned_by (project_owner avesha)) (binding "kubeslice-ro-alice").metadata.labels
        ≡ true)
unfolding get_resource_if_exist to_lower
project_update_example =
    validate_project_update-IsOwned owning 5 "kubeslice-" prefixes avesha false "alice"
      (account "kubeslice-ro-alice") (binding "kubeslice-ro-alice") accepted refl refl refl refl
