-- ===== src/AccessControl/Obsolete/Kept.antt =====
-- What the clean-up of access deletes (service/access_control_service.go).
use kubeslice_controller.Common.{
  String, ◌≡◌, refl, sym, ap, ◌∙◌, Bool, true, false, ◌&&◌, List, map, Option, none, some, Map,
  lookup, contains, if◌then◌else◌, ◌==◌, eq_iff, subst,
}
use kubeslice_controller.Go.Effect.{>>=_keeps}
use kubeslice_controller.Resources.Meta.{ObjectMeta}
use kubeslice_controller.Resources.Access.{RoleBinding, Account, Owner}
use kubeslice_controller.Platform.{Platform, Resource}
use kubeslice_controller.Platform.Reporting.{Notice, notify, delete_reported_keeps, each_keeps}
use kubeslice_controller.AccessControl.Roles.{deleted, deletion_failed}
use kubeslice_controller.AccessControl.Accounts.{Access, access_name}
use kubeslice_controller.AccessControl.Obsolete.{
  Activity, active, has_access, activities, visit_entry, delete_inactive, bindings_of, accounts_of,
  delete_inactive_bindings, delete_inactive_accounts,
  cleanup_obsolete_service_accounts_and_role_bindings,
}
use kubeslice_controller.AccessControl.Obsolete.Entries.{
  is_named, last_named, entry_or, lookup-activities, last_named-is_named,
}

and_left : (a b : Bool) → a && b ≡ true → a ≡ true
and_left true b h = refl
and_left false b h = h

and_right : (a b : Bool) → a && b ≡ true → b ≡ true
and_right true b h = h
and_right false b h = cc

-- An object with the access type and a name that is not expected.
abbrev pub IsObsolete :
    {A : Type 0} → (A → ObjectMeta) → (access_type prefix : String) → List String → A → Type 0
IsObsolete metadata access_type prefix names object =
    (has_access access_type (metadata object) ≡ true)
    × (contains (map (access_name prefix) names) (metadata object).name ≡ false)

module _ {W : Type 0} (platform : Platform W) (P : W → Type 0)
    (notices : (kind : String) (notice : Notice) (name : String) (w : W)
      → P w
      → P (notify platform kind notice name w)) where
  module _ {A : Type 0} (kind event : String) (resource : Resource W A) (metadata : A → ObjectMeta)
      (access_type prefix : String) (names : List String)
      (deletes : (object : A) (w : W)
        → IsObsolete metadata access_type prefix names object
        → P w
        → P (resource.delete object w).1) where
    visit_keeps :
        (key : String) (object : Option A) (b : Bool) (w : W)
        → contains (map (access_name prefix) names) key ≡ b
        → ((o : A) → object ≡ some o → is_named metadata access_type key o ≡ true)
        → P w
        → P
            (visit_entry platform kind event resource metadata
              (if b then some active else entry_or metadata access_type object none)
              w).1
    visit_keeps key object true w e named h = h
    visit_keeps key none false w e named h = h
    visit_keeps key (some o) false w e named h =
        let found = named o refl in
        let accessed : has_access access_type (metadata o) ≡ true =
          and_left (has_access access_type (metadata o)) ((metadata o).name == key) found in
        let same_name : (metadata o).name ≡ key =
          (eq_iff (metadata o).name key).0
            (and_right (has_access access_type (metadata o)) ((metadata o).name == key) found) in
        delete_reported_keeps platform kind resource metadata P (deleted event)
          (deletion_failed event) o w (notices kind)
          (deletes o w (accessed, ap (contains (map (access_name prefix) names)) same_name ∙ e) h)

    delete_inactive_keeps :
        (objects : List A) (w : W)
        → P w
        → P
            (delete_inactive platform kind event resource metadata
              (activities metadata access_type (map (access_name prefix) names) objects)
              w).1
    unfolding delete_inactive
    delete_inactive_keeps objects w h =
        each_keeps P (λ key. visit_entry platform kind event resource metadata (lookup key entries))
          (λ key v k.
            subst (λ entry. P (visit_entry platform kind event resource metadata entry v).1)
              (sym (
                lookup-activities metadata access_type (map (access_name prefix) names) objects
                  key))
              (visit_keeps key (last_named metadata access_type key objects)
                (contains (map (access_name prefix) names) key) v refl
                (λ o. last_named-is_named metadata access_type key objects o) k))
          (platform.range_keys (map (λ (entry : String × Activity A). entry.0) entries) w) w h
      where
        entries : Map (Activity A)
        entries = activities metadata access_type (map (access_name prefix) names) objects

  -- A clean-up of access for some names keeps whatever the notices and the deletions of obsolete role
  -- bindings and service accounts keep, in whatever order it takes the entries, also where a call fails: it
  -- deletes nothing that has another access type or one of the given names.
  pub cleanup_obsolete_keeps :
      (access : Access) (namespace : String) (owner : Owner) (names : List String) (w : W)
      → ((b : RoleBinding) (v : W)
          → IsObsolete
              (λ (x : RoleBinding). x.metadata)
              access.access_type
              access.role_binding_prefix
              names
              b
          → P v
          → P (platform.role_bindings.delete b v).1)
      → ((a : Account) (v : W)
          → IsObsolete
              (λ (x : Account). x.metadata)
              access.access_type
              access.service_account_prefix
              names
              a
          → P v
          → P (platform.service_accounts.delete a v).1)
      → P w
      → P
          (cleanup_obsolete_service_accounts_and_role_bindings platform namespace owner access names
            w).1
  unfolding cleanup_obsolete_service_accounts_and_role_bindings
  cleanup_obsolete_keeps access namespace owner names w bindings accounts h =
      >>=_keeps P (bindings_of platform namespace owner) _ w h (λ bs u j.
        >>=_keeps P (accounts_of platform namespace owner) _ u j (λ accs v k.
          >>=_keeps P (delete_inactive_bindings platform namespace owner access names bs) _ v
            (delete_inactive_keeps "role_binding" "EventInactiveRoleBinding" platform.role_bindings
              (λ x. x.metadata) access.access_type access.role_binding_prefix names bindings bs v k)
            (λ t x l.
              >>=_keeps P (delete_inactive_accounts platform namespace owner access names accs) _ x
                (delete_inactive_keeps "service_account" "EventInactiveServiceAccount"
                  platform.service_accounts (λ y. y.metadata) access.access_type
                  access.service_account_prefix names accounts accs x l)
                (λ t' y m. m))))
