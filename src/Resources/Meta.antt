-- ===== src/Resources/Meta.antt =====
-- `metav1.ObjectMeta` of k8s.io/apimachinery, as far as the program uses it.
use kubeslice_controller.Common.{ℕ, String, Option, none, List, [], Map, lookup, get_or}

pub record ObjectMeta : Type 0 where
  pub name : String
  pub namespace : String
  pub labels : Map String
  pub annotations : Map String
  pub finalizers : List String
  -- The names of the owners.
  pub owner_references : List String
  -- A time is a number of seconds; `none` is the zero time.
  pub deletion_timestamp : Option ℕ

-- `object.Labels[key]`: the empty text for a missing key.
abbrev pub label : ObjectMeta → String → String
label m key = get_or (lookup key m.labels) ""

-- `types.NamespacedName`
pub record Key : Type 0 where
  pub namespace : String
  pub name : String

-- `corev1.Namespace`: cluster-scoped, so its `namespace` is empty.
pub record Namespace : Type 0 where
  pub metadata : ObjectMeta
  pub open metadata use *

-- `corev1.Secret`; `Data` is its contents, as texts.
pub record Secret : Type 0 where
  pub metadata : ObjectMeta
  pub secret_type : String
  pub contents : Map String

-- `batchv1.Job` with its one container.
pub record JobCondition : Type 0 where
  pub condition_type : String
  pub status : String

pub record JobSpec : Type 0 where
  pub ttl_seconds_after_finished : ℕ
  pub backoff_limit : ℕ
  pub image : String
  pub environment : Map String
  pub service_account_name : String
  pub image_pull_secrets : List String

pub record Job : Type 0 where
  pub metadata : ObjectMeta
  pub spec : JobSpec
  pub conditions : List JobCondition
  pub active : ℕ

-- A new object's metadata.
abbrev pub named : String → String → Map String → ObjectMeta
named object_name object_namespace object_labels = record {
  name = object_name;
  namespace = object_namespace;
  labels = object_labels;
  annotations = [];
  finalizers = [];
  owner_references = [];
  deletion_timestamp = none;
}
