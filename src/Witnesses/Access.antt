-- ===== src/Witnesses/Access.antt =====
-- The access of users and clusters, and the namespaces of projects, at concrete inputs.
use kubeslice_controller.Common.{
  suc, String, ◌≡◌, refl, sym, ap, ◌∙◌, true, false, [], ◌∷◌, some, none, contains, inl, inr, ◌==◌,
  eq_iff, Bool-cases, if◌then◌else◌, lookup, insert,
}
use kubeslice_controller.Go.{ok}
use kubeslice_controller.Go.Text.{to_lower}
use kubeslice_controller.Resources.Meta.{ObjectMeta, Namespace}
use kubeslice_controller.Resources.Access.{RoleBinding, Account, Owner}
use kubeslice_controller.Resources.Cluster.{Cluster}
use kubeslice_controller.Platform.{Platform, found, get_resource_if_exist}
use kubeslice_controller.Util.Projects.{check_for_project_namespace}
use kubeslice_controller.AccessControl.Rules.{read_only_role_rules, read_write_role_rules, allows}
use kubeslice_controller.AccessControl.Rules.Inclusion.{read_only_role_rules-lem}
use kubeslice_controller.AccessControl.Accounts.{
  Access, create_or_update_service_accounts_and_role_bindings,
}
use kubeslice_controller.AccessControl.Accounts.Secretless.{create_or_update_keeps}
use kubeslice_controller.AccessControl.Obsolete.{
  active, activities, cleanup_obsolete_service_accounts_and_role_bindings,
}
use kubeslice_controller.AccessControl.Obsolete.Entries.{lookup-activities, last_named, entry_or}
use kubeslice_controller.AccessControl.Obsolete.Kept.{IsObsolete, cleanup_obsolete_keeps}
use kubeslice_controller.Projects.Namespaces.{
  expected_namespace, labelled_namespace, annotated_namespace, in_controller_namespace,
}
use kubeslice_controller.Projects.Namespaces.Checked.{project_namespace-IsProjectNamespace}
use kubeslice_controller.Witnesses.Data.{Server, nothing, meta, cluster, server}

abbrev reader : Access
reader = record {
  service_account_prefix = "kubeslice-rbac-ro-";
  role_binding_prefix = "kubeslice-rbac-ro-";
  access_type = "read-only";
}

abbrev avesha : Owner
avesha = record { kind = "Project"; metadata = meta "avesha" "kubeslice-controller" [] }

abbrev reader_meta : String → ObjectMeta
reader_meta name = record (meta name "kubeslice-avesha" []) {
  annotations = ("controller.kubeslice.io/access-type", "read-only") ∷ [];
}

abbrev binding : String → RoleBinding
binding name = record {
  metadata = reader_meta name;
  role_ref = record { name = "kubeslice-read-only"; kind = "Role" };
  subjects = [];
}

abbrev account : String → Account
account name = record { metadata = reader_meta name; secrets = [] }

-- A server whose state counts the deletions of the role binding of alice.
abbrev watched : Platform Server
watched = record server {
  role_bindings = record nothing {
    list = λ labels namespace w.
        inr (binding "kubeslice-rbac-ro-alice" ∷ binding "kubeslice-rbac-ro-bob" ∷ []);
    delete = λ b w. (none, if b.metadata.name == "kubeslice-rbac-ro-alice" then suc w else w);
  };
  service_accounts = record nothing { get = λ key w. found (account key.name) };
}

not_deleted :
    (b : RoleBinding) (v : Server)
    → IsObsolete (λ (x : RoleBinding). x.metadata) "read-only" "kubeslice-rbac-ro-" ("Alice" ∷ []) b
    → v ≡ 0
    → (watched.role_bindings.delete b v).1 ≡ 0
unfolding to_lower
not_deleted b v h k = elim (Bool-cases (b.metadata.name == "kubeslice-rbac-ro-alice")) [
  | inl same ↦
      let impossible : true ≡ false =
        ap (contains ("kubeslice-rbac-ro-alice" ∷ []))
          (sym ((eq_iff b.metadata.name "kubeslice-rbac-ro-alice").0 same))
        ∙ h.1 in
      absurd (cc impossible)
  | inr other ↦ ap (λ t. if t then suc v else v) other ∙ k
]

kept_example :
    (cleanup_obsolete_service_accounts_and_role_bindings watched "kubeslice-avesha" avesha reader
      ("Alice" ∷ [])
      0).1
    ≡ 0
kept_example =
    cleanup_obsolete_keeps watched (λ (w : Server). w ≡ 0) (λ kind notice name w h. h) reader
      "kubeslice-avesha" avesha ("Alice" ∷ []) 0 not_deleted (λ a v o h. h) refl

activities_example :
    lookup "kubeslice-rbac-ro-bob" (
      activities
        (λ (x : RoleBinding). x.metadata)
        "read-only"
        ("kubeslice-rbac-ro-alice" ∷ [])
        (binding "kubeslice-rbac-ro-alice" ∷ binding "kubeslice-rbac-ro-bob" ∷ []))
    ≡ (if contains ("kubeslice-rbac-ro-alice" ∷ []) "kubeslice-rbac-ro-bob"
        then some active
        else entry_or
            (λ (x : RoleBinding). x.metadata)
            "read-only"
            (last_named
              (λ (x : RoleBinding). x.metadata)
              "read-only"
              "kubeslice-rbac-ro-bob"
              (binding "kubeslice-rbac-ro-alice" ∷ binding "kubeslice-rbac-ro-bob" ∷ []))
            none)
activities_example =
    lookup-activities (λ (x : RoleBinding). x.metadata) "read-only" ("kubeslice-rbac-ro-alice" ∷ [])
      (binding "kubeslice-rbac-ro-alice" ∷ binding "kubeslice-rbac-ro-bob" ∷ [])
      "kubeslice-rbac-ro-bob"

reading_allowed : allows read_only_role_rules "list" "controller.kubeslice.io" "sliceconfigs" ≡ true
unfolding allows read_only_role_rules
reading_allowed = refl

read_only_example :
    (contains ("get" ∷ "list" ∷ "watch" ∷ []) "list" ≡ true)
    × (allows read_write_role_rules "list" "controller.kubeslice.io" "sliceconfigs" ≡ true)
read_only_example =
    read_only_role_rules-lem "list" "controller.kubeslice.io" "sliceconfigs" reading_allowed

-- A server with the service accounts, which counts new accounts and secrets.
abbrev provisioned : Platform Server
provisioned = record server {
  service_accounts = record nothing {
    get = λ key w. found (account key.name);
    create = λ a w. (none, suc w);
  };
  secrets = record nothing { create = λ s w. (none, suc w) };
}

secretless_example :
    (create_or_update_service_accounts_and_role_bindings provisioned reader "kubeslice-avesha"
      avesha
      ("alice" ∷ [])
      "kubeslice-read-only"
      5).1
    ≡ 5
unfolding get_resource_if_exist to_lower
secretless_example =
    create_or_update_keeps provisioned reader "kubeslice-avesha" avesha 5 (λ (w : Server). w ≡ 5)
      (λ notice name v h. h) (λ binding v h. h) (λ binding v h. h) ("alice" ∷ [])
      "kubeslice-read-only" ((account "kubeslice-rbac-ro-alice", refl), tt) refl

abbrev leaving : Cluster
leaving = record (cluster "west") {
  metadata = record (meta "west" "kubeslice-avesha" []) {
    finalizers = "worker.kubeslice.io/cluster-deregister-finalizer" ∷ [];
    deletion_timestamp = some 100;
  };
}

abbrev relabelled : Namespace
relabelled = record {
  metadata = meta "kubeslice-avesha" "" (("kubeslice-controller-resource-name", "Slice-red") ∷ []);
}

-- The same with the labels of a project.
abbrev corrected : Namespace
corrected = record {
  metadata = meta "kubeslice-avesha" "" (
      ("kubeslice-controller-resource-name", "Project-kubeslice-avesha")
      ∷ ("kubeslice-resource-owner", "kubeslice-controller")
      ∷ []);
}

corrected_run :
    labelled_namespace relabelled.name "Project" (meta "avesha" "" []) relabelled ≡ ok corrected
unfolding labelled_namespace insert lookup
corrected_run = refl

project_namespace_example :
    (check_for_project_namespace
        (expected_namespace relabelled.name "Project" (meta "avesha" "" []))
      ≡ true)
    × (check_for_project_namespace corrected ≡ true)
    × (check_for_project_namespace (
          annotated_namespace relabelled.name "Project"
            (meta "avesha" "" [])
            (in_controller_namespace corrected))
        ≡ true)
project_namespace_example =
    project_namespace-IsProjectNamespace "Project" (meta "avesha" "" []) relabelled corrected refl
      corrected_run
