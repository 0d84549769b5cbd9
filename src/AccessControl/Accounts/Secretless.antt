-- ===== src/AccessControl/Accounts/Secretless.antt =====
-- Service accounts that are there already (service/access_control_service.go).
use kubeslice_controller.Common.{
  String, ◌≡◌, refl, sym, subst, ap, ◌∙◌, Bool, true, false, not, List, [], ◌∷◌, Option, some, none,
  All,
}
use kubeslice_controller.Go.{ApiError, Outcome, ok}
use kubeslice_controller.Go.Effect.{◌>>◌, pure, asks, each, resume, >>=_keeps}
use kubeslice_controller.Resources.Access.{Account, Owner, RoleBinding}
use kubeslice_controller.Platform.{Platform, get_resource_if_exist, answer, update_resource}
use kubeslice_controller.Platform.Reporting.{Notice, notify, create_reported_keeps, each_keeps}
use kubeslice_controller.Util.Reconciliation.{Result, done}
use kubeslice_controller.AccessControl.Roles.{created, creation_failed}
use kubeslice_controller.AccessControl.Accounts.{
  Access, access_name, write_account, create_account, bind_account, write_binding,
  after_binding_update, same_binding, expected_binding,
  create_or_update_service_accounts_and_role_bindings,
}

module _ {W : Type 0} (platform : Platform W) (access : Access) (namespace : String) (owner : Owner)
    (w : W) where
  -- The service account of a name is there.
  abbrev HasAccount : String → Type 0
  HasAccount name =
      (account : Account) × (get_resource_if_exist platform.service_accounts
          (record { namespace = namespace; name = access_name access.service_account_prefix name })
          w
        ≡ ok (some account))

  each-HasAccount :
      (names : List String)
      → All HasAccount names
      → each names (create_account platform access namespace owner) w ≡ (ok tt, w)
  unfolding each create_account
  each-HasAccount [] h = refl
  each-HasAccount (name ∷ names) h =
      let (account, found) = h.0 in
      ap
        (λ r.
          resume (resume (r, w) (write_account platform access namespace owner name))
            (λ _. each names (create_account platform access namespace owner)))
        found
      ∙ each-HasAccount names h.1

  create_or_update-HasAccount :
      (names : List String) (role_name : String)
      → All HasAccount names
      → create_or_update_service_accounts_and_role_bindings platform access namespace owner names
          role_name w
        ≡ (each names (bind_account platform access namespace owner role_name) >> pure done) w
  unfolding create_or_update_service_accounts_and_role_bindings
  create_or_update-HasAccount names role_name h =
      ap
        (λ r.
          resume r
            (λ _. each names (bind_account platform access namespace owner role_name) >> pure done))
        (each-HasAccount names h)

  module _ (P : W → Type 0)
      (notices : (notice : Notice) (name : String) (v : W)
        → P v
        → P (notify platform "role_binding" notice name v))
      (creates : (binding : RoleBinding) (v : W)
        → P v
        → P (platform.role_bindings.create binding v).1)
      (updates : (binding : RoleBinding) (v : W)
        → P v
        → P (platform.role_bindings.update binding v).1) where
    write_binding_keeps :
        (expected : RoleBinding) (found : Option RoleBinding) (v : W)
        → P v
        → P (write_binding platform access namespace owner expected found v).1
    unfolding update_resource
    write_binding_keeps expected none v k =
        create_reported_keeps platform "role_binding" platform.role_bindings (λ b. b.metadata) P
          (created "EventDefaultRoleBinding") (creation_failed "EventDefaultRoleBinding") expected v
          notices (creates expected v k)
    write_binding_keeps expected (some actual) v k =
        go (not (same_binding expected actual)) (platform.role_bindings.update expected v)
          (updates expected v k)
      where
        go :
            (changed : Bool) (r : Option ApiError × W)
            → P r.1
            → P
                (after_binding_update platform access namespace owner changed expected.metadata.name
                  (answer platform.role_bindings r)).1
        go true (none, u) l = notices _ _ u l
        go false (none, u) l = l
        go changed (some e, u) l = notices _ _ u l

    bind_account_keeps :
        (role_name name : String) (v : W)
        → P v
        → P (bind_account platform access namespace owner role_name name v).1
    unfolding bind_account
    bind_account_keeps role_name name v k =
        >>=_keeps P
          (asks (
            get_resource_if_exist platform.role_bindings (record {
              namespace = namespace;
              name = access_name access.role_binding_prefix name;
            })))
          (write_binding platform access namespace owner
            (expected_binding access namespace owner role_name name))
          v k (λ found u l. write_binding_keeps _ found u l)

    -- Where the service accounts of all names are there, the call keeps whatever the creations and updates
    -- of role bindings and the notices of these keep: it makes no service account and no secret.
    pub create_or_update_keeps :
        (names : List String) (role_name : String)
        → All HasAccount names
        → P w
        → P
            (create_or_update_service_accounts_and_role_bindings platform access namespace owner
              names role_name w).1
    create_or_update_keeps names role_name accounts h =
        subst (λ (r : Outcome Result × W). P r.1)
          (sym (create_or_update-HasAccount names role_name accounts))
          (>>=_keeps P (each names (bind_account platform access namespace owner role_name))
            (λ _. pure done) w
            (each_keeps P (bind_account platform access namespace owner role_name)
              (bind_account_keeps role_name) names w h)
            (λ u v k. k))
