-- ===== src/AccessControl/Rules/Inclusion.antt =====
-- How the roles compare (service/kube_slice_resource_names.go).
use kubeslice_controller.Common.{
  String, ◌≡◌, refl, ap, true, Bool, ◌&&◌, List, [], ◌∷◌, contains, arith, All, All-contains,
  Bool-cases, inl, inr,
}
use kubeslice_controller.Resources.Access.{PolicyRule}
use kubeslice_controller.AccessControl.Rules.{read_only_role_rules, read_write_role_rules, allows}

module _ (verb group resource : String) where
  matches : PolicyRule → Bool
  matches r =
      contains r.verbs verb && (contains r.api_groups group && contains r.resources resource)

  matching :
      (Q : Type 0) (rules : List PolicyRule)
      → allows rules verb group resource ≡ true
      → All (λ (r : PolicyRule). contains r.verbs verb ≡ true → Q) rules
      → Q
  unfolding allows
  matching Q [] h each = cc
  matching Q (r ∷ rules) h each = elim (Bool-cases (contains r.verbs verb)) [
    | inl here ↦ each.0 here
    | inr other ↦ matching Q rules (ground (arith, other, h)) each.1
  ]

  -- Rule by rule, a list has more verbs on the same resources.
  abbrev IsIncluded : List PolicyRule → List PolicyRule → Type 0
  IsIncluded [] [] = Unit
  IsIncluded (r ∷ rs) (s ∷ ss) =
      (All (λ v. contains s.verbs v ≡ true) r.verbs
        × (r.api_groups ≡ s.api_groups)
        × (r.resources ≡ s.resources))
      × IsIncluded rs ss
  IsIncluded _ _ = ⊥

  allows-IsIncluded :
      (rs ss : List PolicyRule)
      → IsIncluded rs ss
      → allows rs verb group resource ≡ true
      → allows ss verb group resource ≡ true
  unfolding allows
  allows-IsIncluded [] [] h k = k
  allows-IsIncluded [] (s ∷ ss) h k = elim h [ ]
  allows-IsIncluded (r ∷ rs) [] h k = elim h [ ]
  allows-IsIncluded (r ∷ rs) (s ∷ ss) ((verbs, groups, resources), rest) k =
      let same_group : contains r.api_groups group ≡ contains s.api_groups group =
        ap (λ gs. contains gs group) groups in
      let same_resource : contains r.resources resource ≡ contains s.resources resource =
        ap (λ xs. contains xs resource) resources in
      let later = allows-IsIncluded rs ss rest in
      elim (Bool-cases (contains r.verbs verb)) [
        | inl here ↦
            let more : contains s.verbs verb ≡ true =
              All-contains (λ v. contains s.verbs v ≡ true) r.verbs verb here verbs in
            ground (arith, here, more, same_group, same_resource, k, later)
        | inr other ↦ ground (arith, other, k, later)
      ]

-- What the read-only role allows is to get, list or watch, and the read-write role allows it as well.
pub read_only_role_rules-lem :
    (verb group resource : String)
    → allows read_only_role_rules verb group resource ≡ true
    → (contains ("get" ∷ "list" ∷ "watch" ∷ []) verb ≡ true)
      × (allows read_write_role_rules verb group resource ≡ true)
unfolding allows read_only_role_rules read_write_role_rules
read_only_role_rules-lem verb group resource h = (
  matching verb group resource (contains ("get" ∷ "list" ∷ "watch" ∷ []) verb ≡ true)
      read_only_role_rules h
      (λ k. k, (λ k. k, (λ k. ground (arith, k), (λ k. ground (arith, k), (λ k. k, tt))))),
  allows-IsIncluded verb group resource read_only_role_rules read_write_role_rules
      (
        ((refl, (refl, (refl, tt))), refl, refl),
        (
          ((refl, (refl, (refl, tt))), refl, refl),
          (
            (((refl, tt), refl, refl)),
            ((((refl, tt), refl, refl)), (((refl, (refl, (refl, tt))), refl, refl), tt)),
          ),
        ),
      )
      h,
)
