-- ===== src/Resources/Access.antt =====
-- The objects of k8s.io/api for access: roles and their bindings, service accounts, and configuration maps. The
-- API group of a reference to a role, which the API server fills in, is left out.
use kubeslice_controller.Common.{String, List, Map}
use kubeslice_controller.Resources.Meta.{ObjectMeta}

-- `rbacv1.PolicyRule`
pub record PolicyRule : Type 0 where
  pub verbs : List String
  pub api_groups : List String
  pub resources : List String

-- `rbacv1.Role`
pub record Role : Type 0 where
  pub metadata : ObjectMeta
  pub rules : List PolicyRule

-- `rbacv1.RoleRef`
pub record RoleRef : Type 0 where
  pub name : String
  pub kind : String

-- `rbacv1.Subject`
pub record Subject : Type 0 where
  pub name : String
  pub namespace : String
  pub kind : String

-- `rbacv1.RoleBinding`
pub record RoleBinding : Type 0 where
  pub metadata : ObjectMeta
  pub role_ref : RoleRef
  pub subjects : List Subject

-- `corev1.ServiceAccount`, with the names of its secrets
pub record Account : Type 0 where
  pub metadata : ObjectMeta
  pub secrets : List String

-- `corev1.ConfigMap`
pub record ConfigMap : Type 0 where
  pub metadata : ObjectMeta
  pub contents : Map String

-- The owner of what a service makes: its kind, as GetObjectKind reads it off the Go type, and its metadata.
pub record Owner : Type 0 where
  pub kind : String
  pub metadata : ObjectMeta
