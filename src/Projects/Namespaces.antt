-- ===== src/Projects/Namespaces.antt =====
-- service/namespace_service.go: the namespace of a project. A map without entries is an
-- absent one, as a decoded object has it: an assignment into it panics, where no guard makes the map first.
pub mod Checked
use kubeslice_controller.Common.{
  String, Bool, true, false, List, [], ◌∷◌, Option, none, some, Map, lookup, insert, get_or, ◌==◌,
}
use kubeslice_controller.Go.{Outcome, ok, panic}
use kubeslice_controller.Go.Effect.{M, ◌>>=◌, ◌>>◌, pure, asks}
use kubeslice_controller.Go.Text.{◌<>◌}
use kubeslice_controller.Resources.Meta.{Key, ObjectMeta, Namespace, named}
use kubeslice_controller.Platform.{
  Platform, get_resource_if_exist, create_resource, update_resource, delete_resource,
}
use kubeslice_controller.Platform.Reporting.{Notice, reported}
use kubeslice_controller.Util.Labels.{filter_labels_and_annotations, put_all, compare_labels}
use kubeslice_controller.Util.OwnerLabels.{label_managed_by, labels_kube_slice_controller}
use kubeslice_controller.Util.Reconciliation.{Result, done}

abbrev namespace_kind : String
namespace_kind = "namespace"

abbrev namespace_notice : (event action : String) → Notice
namespace_notice event action = record { event = "EventNamespace" <> event; action = action }

abbrev kind_or_project : Bool → String → String
kind_or_project true kind = "Project"
kind_or_project false kind = kind

-- getResourceLabel, of the kind in the owner's type metadata
unfoldable pub get_resource_label : (namespace kind : String) → Map String
get_resource_label namespace kind =
    insert label_managed_by (kind_or_project (kind == "") kind <> "-" <> namespace)
      labels_kube_slice_controller

abbrev put_if : Bool → String → String → Map String → Map String
put_if true key value into = into
put_if false key value into = insert key value into

-- `for key, value := range from { if into[key] != value { into[key] = value } }`
unfoldable pub put_differing : Map String → Map String → Map String
put_differing [] into = into
put_differing ((key, value) ∷ rest) into =
    put_differing rest (put_if (get_or (lookup key into) "" == value) key value into)

-- An assignment to an absent map panics; the maps here are absent where they have no entry.
abbrev pub unless_absent : {A : Type 0} → Map String → A → Outcome A
unless_absent [] a = panic
unless_absent (entry ∷ rest) a = ok a

module _ (namespace kind : String) (owner : ObjectMeta) where
  -- The namespace that is created.
  unfoldable pub expected_namespace : Namespace
  unfolding get_resource_label put_all filter_labels_and_annotations
  expected_namespace = record {
    metadata =
        record (named namespace "" (
          put_all (filter_labels_and_annotations owner.labels)
            (get_resource_label namespace kind))) {
              annotations = put_all (filter_labels_and_annotations owner.annotations) [];
            };
  }

  -- A namespace with the labels and annotations that it lacks. The labels are assigned with no guard.
  unfoldable pub labelled_namespace : Namespace → Outcome Namespace
  unfolding get_resource_label put_all put_differing filter_labels_and_annotations
  labelled_namespace found = unless_absent found.metadata.labels (record found {
    metadata = record found.metadata {
      labels =
          put_all (filter_labels_and_annotations owner.labels)
            (put_differing (get_resource_label namespace kind) found.metadata.labels);
      annotations =
          put_all (filter_labels_and_annotations owner.annotations) found.metadata.annotations;
    };
  })

  unfoldable pub annotated_namespace : Namespace → Namespace
  unfolding put_differing filter_labels_and_annotations
  annotated_namespace found = record found {
    metadata = record found.metadata {
      annotations =
          put_differing (filter_labels_and_annotations owner.annotations)
            found.metadata.annotations;
    };
  }

-- `nsResource.Namespace = ControllerNamespace`, for the event; what is updated after it carries it.
abbrev pub in_controller_namespace : Namespace → Namespace
in_controller_namespace found = record found {
  metadata = record found.metadata { namespace = "kubeslice-controller" };
}

module _ {W : Type 0} (platform : Platform W) where
  abbrev update_namespace : Namespace → M W Namespace
  update_namespace new =
      (λ w.
        reported platform namespace_kind (namespace_notice "Updated" "updated")
          (namespace_notice "UpdateFailed" "update_failed") new.metadata.name
          (update_resource platform.namespaces new w))
      >> pure (in_controller_namespace new)

  abbrev update_unless : Bool → Namespace → Outcome Namespace → M W Namespace
  update_unless true old new = pure old
  update_unless false old new = asks (λ w. new) >>= update_namespace

  module _ (namespace kind : String) (owner : ObjectMeta) where
    -- A namespace that is there: its labels first, then its annotations.
    unfoldable correct_namespace : Namespace → M W Result
    unfolding get_resource_label compare_labels labelled_namespace annotated_namespace
        filter_labels_and_annotations
    correct_namespace found = do
      labelled ←
          update_unless (compare_labels found.metadata.labels (get_resource_label namespace kind))
            found (labelled_namespace namespace kind owner found)
      update_unless
          (compare_labels labelled.metadata.annotations
            (filter_labels_and_annotations owner.annotations))
          labelled (ok (annotated_namespace namespace kind owner labelled))
      pure done

    abbrev reconcile_namespace : Option Namespace → M W Result
    reconcile_namespace none =
        (λ w.
          reported platform namespace_kind (namespace_notice "Created" "created")
            (namespace_notice "CreationFailed" "creation_failed") namespace
            (create_resource platform.namespaces (expected_namespace namespace kind owner) w))
        >> pure done
    reconcile_namespace (some found) = correct_namespace found

    -- ReconcileProjectNamespace
    unfoldable pub reconcile_project_namespace : M W Result
    unfolding expected_namespace correct_namespace
    reconcile_project_namespace =
        asks
          (get_resource_if_exist platform.namespaces (record { namespace = ""; name = namespace }))
        >>= reconcile_namespace

  abbrev delete_found_namespace : String → Option Namespace → M W (Unit {0})
  delete_found_namespace namespace none = pure tt
  delete_found_namespace namespace (some found) = λ w.
      reported platform namespace_kind (namespace_notice "Deleted" "deleted")
        (namespace_notice "DeletionFailed" "deletion_failed") namespace
        (delete_resource platform.namespaces (record { metadata = named namespace "" [] }) w)

  -- DeleteNamespace
  unfoldable pub delete_namespace : String → M W (Unit {0})
  delete_namespace namespace =
      asks (get_resource_if_exist platform.namespaces (record { namespace = ""; name = namespace }))
      >>= delete_found_namespace namespace
