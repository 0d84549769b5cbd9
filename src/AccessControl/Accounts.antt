-- ===== src/AccessControl/Accounts.antt =====
-- The service accounts and role bindings of a list of names (createOrUpdateServiceAccountsAndRoleBindings of
-- service/access_control_service.go).
pub mod Secretless
use kubeslice_controller.Common.{
  String, Bool, true, false, not, ◌&&◌, List, [], ◌∷◌, Option, none, some, Map, ◌==◌,
}
use kubeslice_controller.Go.{Outcome, ok, err, panic}
use kubeslice_controller.Go.Effect.{M, ◌>>=◌, ◌>>◌, pure, asks, each}
use kubeslice_controller.Go.Text.{◌<>◌, to_lower}
use kubeslice_controller.Resources.Meta.{Key, ObjectMeta, Secret, named}
use kubeslice_controller.Resources.Access.{RoleRef, Subject, RoleBinding, Account, Owner}
use kubeslice_controller.Platform.{Platform, get_resource_if_exist, update_resource}
use kubeslice_controller.Platform.Reporting.{Notice, notify, create_reported}
use kubeslice_controller.Util.Reconciliation.{Result, done}
use kubeslice_controller.AccessControl.Roles.{
  created, creation_failed, updated, update_failed, owned_by,
}

-- The names of service accounts and of role bindings begin with these; the patterns of the code end in `%s`.
pub record Access : Type 0 where
  pub service_account_prefix : String
  pub role_binding_prefix : String
  pub access_type : String

abbrev pub access_annotation : String
access_annotation = "controller.kubeslice.io/access-type"

-- fmt.Sprintf of a pattern and the name in lower case
abbrev pub access_name : (prefix : String) → String → String
access_name prefix name = prefix <> to_lower name

-- The metadata of a new object with its access type.
abbrev annotated : Access → (object_name namespace : String) → Owner → ObjectMeta
annotated access object_name namespace owner =
    record (named object_name namespace (owned_by owner)) {
      annotations = (access_annotation, access.access_type) ∷ [];
    }

module _ (access : Access) (namespace : String) (owner : Owner) where
  abbrev expected_account : String → Account
  expected_account name =
      let account_name = access_name access.service_account_prefix name in
      record {
        metadata = annotated access account_name namespace owner;
        secrets = account_name ∷ [];
      }

  abbrev expected_secret : String → Secret
  expected_secret name =
      let account_name = access_name access.service_account_prefix name in
      record {
        metadata = record (named account_name namespace []) {
          annotations = ("kubernetes.io/service-account.name", account_name) ∷ [];
        };
        secret_type = "kubernetes.io/service-account-token";
        contents = [];
      }

  abbrev expected_binding : (role_name : String) → String → RoleBinding
  expected_binding role_name name = record {
    metadata = annotated access (access_name access.role_binding_prefix name) namespace owner;
    role_ref = record { name = role_name; kind = "Role" };
    subjects =
        record {
          name = access_name access.service_account_prefix name;
          namespace = namespace;
          kind = "ServiceAccount";
        }
        ∷ [];
  }

-- `reflect.DeepEqual` of the references and of the subjects
abbrev same_subjects : List Subject → List Subject → Bool
same_subjects [] [] = true
same_subjects (s ∷ ss) (t ∷ ts) =
    s.name == t.name && (s.namespace == t.namespace && (s.kind == t.kind && same_subjects ss ts))
same_subjects _ _ = false

abbrev same_binding : RoleBinding → RoleBinding → Bool
same_binding a b =
    (a.role_ref.name == b.role_ref.name && a.role_ref.kind == b.role_ref.kind)
    && same_subjects a.subjects b.subjects

module _ {W : Type 0} (platform : Platform W) (access : Access) (namespace : String)
    (owner : Owner) where
  -- A service account that is there is left as it is; a new one gets a secret.
  abbrev pub write_account : String → Option Account → M W (Unit {0})
  write_account name (some actual) = pure tt
  write_account name none =
      create_reported platform "service_account" platform.service_accounts (λ a. a.metadata)
        (created "EventServiceAccount") (creation_failed "EventServiceAccount")
        (expected_account access namespace owner name)
      >> create_reported platform "secret" platform.secrets (λ s. s.metadata)
          (created "EventServiceAccountSecret") (creation_failed "EventServiceAccountSecret")
          (expected_secret access namespace owner name)

  unfoldable pub create_account : String → M W (Unit {0})
  create_account name =
      asks (
        get_resource_if_exist platform.service_accounts
          (record { namespace = namespace; name = access_name access.service_account_prefix name }))
      >>= write_account name

  -- An update that changes nothing is not reported.
  abbrev after_binding_update :
      (changed : Bool) → String → Outcome (Unit {0}) × W → Outcome (Unit {0}) × W
  after_binding_update changed name (err e, w) =
      (err e, notify platform "role_binding" (update_failed "EventDefaultRoleBinding") name w)
  after_binding_update true name (ok u, w) =
      (ok tt, notify platform "role_binding" (updated "EventDefaultRoleBinding") name w)
  after_binding_update false name (ok u, w) = (ok tt, w)
  after_binding_update changed name (panic, w) = (panic, w)

  abbrev write_binding : RoleBinding → Option RoleBinding → M W (Unit {0})
  write_binding expected none =
      create_reported platform "role_binding" platform.role_bindings (λ b. b.metadata)
        (created "EventDefaultRoleBinding") (creation_failed "EventDefaultRoleBinding") expected
  write_binding expected (some actual) = λ w.
      after_binding_update (not (same_binding expected actual)) expected.metadata.name
        (update_resource platform.role_bindings expected w)

  unfoldable pub bind_account : (role_name : String) → String → M W (Unit {0})
  bind_account role_name name =
      asks (
        get_resource_if_exist platform.role_bindings
          (record { namespace = namespace; name = access_name access.role_binding_prefix name }))
      >>= write_binding (expected_binding access namespace owner role_name name)

  -- createOrUpdateServiceAccountsAndRoleBindings
  unfoldable pub create_or_update_service_accounts_and_role_bindings :
      (names : List String) (role_name : String) → M W Result
  unfolding create_account bind_account
  create_or_update_service_accounts_and_role_bindings names role_name = do
    each names create_account
    each names (bind_account role_name)
    pure done
