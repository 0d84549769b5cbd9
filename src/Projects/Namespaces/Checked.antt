-- ===== src/Projects/Namespaces/Checked.antt =====
-- The label by which the namespace of a project is known (service/namespace_service.go).
use text.Mathlib.TextLemmas.{append_assoc}
use kubeslice_controller.Common.{
  String, ◌≡◌, refl, sym, subst, ap, ◌∙◌, Bool, true, false, List, [], ◌∷◌, none, some, Map, lookup,
  insert, lookup-insert, get_or, if◌then◌else◌, ◌==◌, eq_iff, inl, inr, Bool-cases, arith,
}
use kubeslice_controller.Go.{ok}
use kubeslice_controller.Go.Text.{◌<>◌}
use kubeslice_controller.Resources.Meta.{ObjectMeta, Namespace}
use kubeslice_controller.Util.Labels.{
  insert_unless, partial_contains, filter_labels_and_annotations, put_all,
}
use kubeslice_controller.Util.OwnerLabels.{label_managed_by}
use kubeslice_controller.Util.Projects.{check_for_project_namespace}
use kubeslice_controller.Projects.Namespaces.{
  get_resource_label, kind_or_project, put_if, put_differing, expected_namespace, unless_absent,
  labelled_namespace, annotated_namespace, in_controller_namespace,
}

abbrev parts : List String
parts = "kubeslice-" ∷ "kubernetes.io" ∷ []

lookup-put_all :
    (key : String) (from into : Map String)
    → lookup key from ≡ none
    → lookup key (put_all from into) ≡ lookup key into
unfolding put_all lookup
lookup-put_all key [] into h = refl
lookup-put_all key ((k, v) ∷ rest) into h = elim (Bool-cases (k == key)) [
  | inl same ↦ ground (arith, same, h)
  | inr other ↦
      lookup-put_all key rest (insert k v into) (ground (arith, other, h))
      ∙ lookup-insert k key v into
      ∙ ap (λ b. if b then some v else lookup key into) other
]

insert_unless-none :
    (key k v : String) (b : Bool) (m : Map String)
    → (b ≡ false → (k == key) ≡ false)
    → lookup key m ≡ none
    → lookup key (insert_unless b k v m) ≡ none
insert_unless-none key k v true m other h = h
insert_unless-none key k v false m other h =
    lookup-insert k key v m ∙ ap (λ b. if b then some v else lookup key m) (other refl) ∙ h

is_other :
    (key k : String)
    → partial_contains parts key ≡ true
    → partial_contains parts k ≡ false
    → (k == key) ≡ false
is_other key k h g = elim (Bool-cases (k == key)) [
  | inl same ↦ absurd (ground (arith, same, eq_iff k key, h, g))
  | inr other ↦ other
]

lookup-filter :
    (key : String) (m : Map String)
    → partial_contains parts key ≡ true
    → lookup key (filter_labels_and_annotations m) ≡ none
unfolding filter_labels_and_annotations lookup
lookup-filter key [] h = refl
lookup-filter key ((k, v) ∷ rest) h =
    insert_unless-none key k v (partial_contains parts k) (filter_labels_and_annotations rest)
      (is_other key k h) (lookup-filter key rest h)

-- `m[key]`
abbrev read : String → Map String → String
read key m = get_or (lookup key m) ""

read-insert :
    (k key v : String) (m : Map String)
    → read key (insert k v m) ≡ (if k == key then v else read key m)
read-insert k key v m = ground (arith, lookup-insert k key v m)

read-put_if :
    (k key v : String) (b : Bool) (m : Map String)
    → (b ≡ true → read k m ≡ v)
    → read key (put_if b k v m) ≡ (if k == key then v else read key m)
read-put_if k key v true m same = elim (Bool-cases (k == key)) [
  | inl here ↦
      ap (λ j. read j m) (sym ((eq_iff k key).0 here))
      ∙ same refl
      ∙ sym (ap (λ b. if b then v else read key m) here)
  | inr other ↦ sym (ap (λ b. if b then v else read key m) other)
]
read-put_if k key v false m same = read-insert k key v m

read-put_differing :
    (key v : String) (into : Map String) → read key (put_differing ((key, v) ∷ []) into) ≡ v
unfolding put_differing
read-put_differing key v into =
    read-put_if key key v (read key into == v) into (λ same. (eq_iff (read key into) v).0 same)
    ∙ ap (λ b. if b then v else read key into) ((eq_iff key key).1 refl)

read-put_filtered :
    (key : String) (from into : Map String)
    → partial_contains parts key ≡ true
    → read key (put_all (filter_labels_and_annotations from) into) ≡ read key into
read-put_filtered key from into h =
    ap (λ found. get_or found "")
      (lookup-put_all key (filter_labels_and_annotations from) into (lookup-filter key from h))

managed_by_filtered : partial_contains parts label_managed_by ≡ true
unfolding partial_contains
managed_by_filtered = refl

module _ (namespace kind : String)
    (is_project : kind_or_project (kind == "") kind ≡ "Project") where
  resource_value : kind_or_project (kind == "") kind <> "-" <> namespace ≡ "Project-" <> namespace
  resource_value =
      ap (λ k. k <> "-" <> namespace) is_project ∙ sym (append_assoc "Project" "-" namespace)

  read-get_resource_label :
      read label_managed_by (get_resource_label namespace kind) ≡ "Project-" <> namespace
  unfolding get_resource_label lookup insert
  read-get_resource_label = resource_value

  read-put_resource_label :
      (m : Map String)
      → read label_managed_by (put_differing (get_resource_label namespace kind) m)
        ≡ "Project-" <> namespace
  unfolding get_resource_label put_differing insert
  read-put_resource_label m =
      read-put_differing label_managed_by (kind_or_project (kind == "") kind <> "-" <> namespace) (
        put_if (read "kubeslice-resource-owner" m == "kubeslice-controller")
          "kubeslice-resource-owner" "kubeslice-controller" m)
      ∙ resource_value

  module _ (owner : ObjectMeta) (labels : Map String) where
    checked :
        read label_managed_by labels ≡ "Project-" <> namespace
        → (read label_managed_by (put_all (filter_labels_and_annotations owner.labels) labels)
            == "Project-" <> namespace)
          ≡ true
    checked h =
        (eq_iff
            (read label_managed_by (put_all (filter_labels_and_annotations owner.labels) labels))
            ("Project-" <> namespace)).1
          (read-put_filtered label_managed_by owner.labels labels managed_by_filtered ∙ h)

unless_absent-ok : {A : Type 0} (m : Map String) (a b : A) → unless_absent m a ≡ ok b → a ≡ b
unless_absent-ok [] a b h = cc
unless_absent-ok (entry ∷ rest) a b h = cc

-- For an owner of the kind Project, or with no kind, whatever its labels: its namespace passes
-- CheckForProjectNamespace after each write of the namespace service in which its labels are set or
-- corrected: as it is created; as it is brought up to date, where it has labels that can be assigned to;
-- and as it is written for its annotations after that.
pub project_namespace-IsProjectNamespace :
    (kind : String) (owner : ObjectMeta) (found new : Namespace)
    → kind_or_project (kind == "") kind ≡ "Project"
    → labelled_namespace found.name kind owner found ≡ ok new
    → (check_for_project_namespace (expected_namespace found.name kind owner) ≡ true)
      × (check_for_project_namespace new ≡ true)
      × (check_for_project_namespace
            (annotated_namespace found.name kind owner (in_controller_namespace new))
          ≡ true)
unfolding check_for_project_namespace expected_namespace labelled_namespace annotated_namespace
project_namespace-IsProjectNamespace kind owner found new is_project written =
    let named_new : check_for_project_namespace new ≡ true =
      subst (λ n. check_for_project_namespace n ≡ true)
        (unless_absent-ok found.labels _ new written)
        (checked found.name kind is_project owner
          (put_differing (get_resource_label found.name kind) found.labels)
          (read-put_resource_label found.name kind is_project found.labels)) in
    (
      checked found.name kind is_project owner (get_resource_label found.name kind)
          (read-get_resource_label found.name kind is_project),
      named_new,
      named_new,
    )
