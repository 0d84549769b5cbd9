-- ===== src/Webhooks/Projects/Owned.antt =====
-- The webhook of projects beside the service accounts and role bindings that are then written
-- (service/project_webhook_validation.go, service/access_control_service.go).
use kubeslice_controller.Common.{
  String, ◌≡◌, refl, sym, ap, ◌∙◌, Bool, true, false, not, List, Option, none, some, All, All-map,
  All-contains, contains,
}
use kubeslice_controller.Go.{ok, Outcome, invalid, ◌>>◌}
use kubeslice_controller.Go.Accepts.{>>_iff, for_each_iff, reject_if_iff}
use kubeslice_controller.Go.Text.{◌<>◌, to_lower}
use kubeslice_controller.Resources.Meta.{ObjectMeta}
use kubeslice_controller.Resources.Access.{Account, RoleBinding}
use kubeslice_controller.Resources.Project.{Project}
use kubeslice_controller.Platform.{Platform, Resource, get_resource_if_exist, exists?}
use kubeslice_controller.Util.Labels.{agrees}
use kubeslice_controller.AccessControl.Roles.{owned_by}
use kubeslice_controller.AccessControl.Accounts.{Access, access_name}
use kubeslice_controller.AccessControl.Users.{Prefixes, read_only_user, read_write_user}
use kubeslice_controller.Projects.Reconcile.{project_owner}
use kubeslice_controller.Webhooks.Projects.{
  owned_if_found, validate_if_exists, validate_service_account, validate_role_binding,
  validate_project_update, validate_dns_compliant_sa_names,
}

not-false : (b : Bool) → not b ≡ false → b ≡ true
not-false true h = refl
not-false false h = cc

module _ {W : Type 0} (platform : Platform W) (w : W) (project : Project) (namespace : String) where
  -- The object that the controller would find for a name, if the name is in lower case, has the project's
  -- labels.
  abbrev IsOwned :
      {A : Type 0} → Resource W A → (A → ObjectMeta) → (prefix : String) → String → Type 0
  IsOwned {A} resource metadata prefix name =
      to_lower name ≡ name
      → (object : A)
      → get_resource_if_exist resource
          (record { namespace = namespace; name = access_name prefix name }) w
        ≡ ok (some object)
      → agrees (owned_by (project_owner project)) (metadata object).labels ≡ true

  module _ {A : Type 0} (resource : Resource W A) (metadata : A → ObjectMeta)
      (path prefix : String) where
    found-IsOwned :
        (name : String)
        → owned_if_found metadata path
            (owned_by (project_owner project))
            (exists? resource (record { namespace = namespace; name = prefix <> name }) w)
          ≡ ok tt
        → IsOwned resource metadata prefix name
    unfolding exists?
    found-IsOwned name accepted lower object found =
        not-false (agrees (owned_by (project_owner project)) (metadata object).labels) (
          (reject_if_iff (not (agrees (owned_by (project_owner project)) (metadata object).labels))
              (invalid path "already exists")).0
            (sym (
                ap
                  (λ answer.
                    owned_if_found metadata path (owned_by (project_owner project))
                      (found_in answer))
                  at_name)
              ∙ accepted))
      where
        found_in : Outcome (Option A) → Option A
        found_in r = elim r [ ok o ↦ o | _ ↦ none ]

        at_name :
            get_resource_if_exist resource
              (record { namespace = namespace; name = prefix <> name })
              w
            ≡ ok (some object)
        at_name =
            sym (
              ap
                (λ n.
                  get_resource_if_exist resource
                    (record { namespace = namespace; name = prefix <> n }) w)
                lower)
            ∙ found

    names-AreOwned :
        (names : List String)
        → validate_if_exists platform w resource metadata path project namespace prefix names
          ≡ ok tt
        → All (IsOwned resource metadata prefix) names
    unfolding validate_if_exists
    names-AreOwned names accepted = All-map found-IsOwned names ((for_each_iff names _).0 accepted)

-- The users who may write, and those who may not, with the names of what they get.
abbrev users_of : (may_write : Bool) → Project → List String
users_of true project = project.spec.service_account.read_write
users_of false project = project.spec.service_account.read_only

abbrev access_of : (may_write : Bool) → Prefixes → Access
access_of true prefixes = read_write_user prefixes
access_of false prefixes = read_only_user prefixes

module _ {W : Type 0} (platform : Platform W) (w : W) (namespace_prefix : String)
    (prefixes : Prefixes) (project : Project) where
  abbrev AccountIsOwned : (may_write : Bool) → String → Type 0
  AccountIsOwned may_write =
      IsOwned platform w project (namespace_prefix <> project.metadata.name)
        platform.service_accounts (λ a. a.metadata)
        (access_of may_write prefixes).service_account_prefix

  abbrev BindingIsOwned : (may_write : Bool) → String → Type 0
  BindingIsOwned may_write =
      IsOwned platform w project (namespace_prefix <> project.metadata.name) platform.role_bindings
        (λ b. b.metadata) (access_of may_write prefixes).role_binding_prefix

  All-AreOwned :
      (may_write : Bool)
      → validate_project_update platform w namespace_prefix prefixes project ≡ ok tt
      → All (AccountIsOwned may_write) (users_of may_write project)
        × All (BindingIsOwned may_write) (users_of may_write project)
  unfolding validate_project_update validate_service_account validate_role_binding
  All-AreOwned may_write accepted =
      let service_accounts =
        validate_service_account platform w namespace_prefix prefixes project in
      let role_bindings = validate_role_binding platform w namespace_prefix prefixes project in
      let named =
        (>>_iff (service_accounts >> role_bindings) (validate_dns_compliant_sa_names project)).0
          accepted in
      let checks = (>>_iff service_accounts role_bindings).0 named.0 in
      let accounts = (>>_iff _ _).0 checks.0 in
      let bindings = (>>_iff _ _).0 checks.1 in
      elim may_write
        as (λ k.
          All (AccountIsOwned k) (users_of k project)
          × All (BindingIsOwned k) (users_of k project)) [
            | true ↦ (
              names-AreOwned platform w project (namespace_prefix <> project.metadata.name)
                  platform.service_accounts (λ a. a.metadata) _ _ _ accounts.1,
              names-AreOwned platform w project (namespace_prefix <> project.metadata.name)
                  platform.role_bindings (λ b. b.metadata) _ _ _ bindings.1,
            )
            | false ↦ (
              names-AreOwned platform w project (namespace_prefix <> project.metadata.name)
                  platform.service_accounts (λ a. a.metadata) _ _ _ accounts.0,
              names-AreOwned platform w project (namespace_prefix <> project.metadata.name)
                  platform.role_bindings (λ b. b.metadata) _ _ _ bindings.0,
            )
          ]

  -- Let the update of a project be accepted, and the name of a user of it be in lower case. Then the
  -- service account and the role binding that the controller finds for this user have the owner labels of
  -- the project: it takes over neither from another owner.
  pub validate_project_update-IsOwned :
      (may_write : Bool) (name : String) (account : Account) (binding : RoleBinding)
      → validate_project_update platform w namespace_prefix prefixes project ≡ ok tt
      → contains (users_of may_write project) name ≡ true
      → to_lower name ≡ name
      → get_resource_if_exist platform.service_accounts
          (record {
            namespace = namespace_prefix <> project.metadata.name;
            name = access_name (access_of may_write prefixes).service_account_prefix name;
          })
          w
        ≡ ok (some account)
      → get_resource_if_exist platform.role_bindings
          (record {
            namespace = namespace_prefix <> project.metadata.name;
            name = access_name (access_of may_write prefixes).role_binding_prefix name;
          })
          w
        ≡ ok (some binding)
      → (agrees (owned_by (project_owner project)) account.metadata.labels ≡ true)
        × (agrees (owned_by (project_owner project)) binding.metadata.labels ≡ true)
  validate_project_update-IsOwned may_write name account binding accepted user lower found bound =
      let owned = All-AreOwned may_write accepted in
      (
        All-contains (AccountIsOwned may_write) (users_of may_write project) name user owned.0 lower
            account found,
        All-contains (BindingIsOwned may_write) (users_of may_write project) name user owned.1 lower
            binding bound,
      )
