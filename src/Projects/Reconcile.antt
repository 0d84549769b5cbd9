-- ===== src/Projects/Reconcile.antt =====
-- ReconcileProject and CleanUpProjectResources of service/project_service.go
use kubeslice_controller.Common.{
  String, true, false, [], ◌∷◌, Option, none, some, Map, lookup, insert, get_or,
}
use kubeslice_controller.Go.{message, Outcome, ok, err, panic}
use kubeslice_controller.Go.Effect.{M, ◌>>=◌, ◌>>◌, pure, asks}
use kubeslice_controller.Go.Text.{◌<>◌}
use kubeslice_controller.Resources.Meta.{ObjectMeta, named}
use kubeslice_controller.Resources.Slice.{SliceQosConfig}
use kubeslice_controller.Resources.Project.{Project}
use kubeslice_controller.Resources.Access.{ConfigMap, Owner}
use kubeslice_controller.Platform.{
  Platform, get_resource_if_exist, create_resource, update_resource,
}
use kubeslice_controller.Platform.Reporting.{notify, reported}
use kubeslice_controller.Util.Arrays.{contains_string}
use kubeslice_controller.Util.Labels.{put_all}
use kubeslice_controller.Util.Reconciliation.{Result, done, Object, add_finalizer, remove_finalizer}
use kubeslice_controller.AccessControl.Roles.{
  reconcile_worker_cluster_role, reconcile_read_only_role, reconcile_read_write_role,
}
use kubeslice_controller.AccessControl.Users.{
  Prefixes, reconcile_read_only_user_service_account_and_role_bindings,
  reconcile_read_write_user_service_account_and_role_bindings,
}
use kubeslice_controller.ServiceDiscovery.Exports.{delete_service_export_configs}
use kubeslice_controller.Slices.Deletion.{delete_slice_configs}
use kubeslice_controller.Clusters.Deregistration.{delete_clusters}
use kubeslice_controller.QosConfigs.{delete_slice_qos_config}
use kubeslice_controller.Projects.Namespaces.{reconcile_project_namespace, delete_namespace}

abbrev project_finalizer : String
project_finalizer = "controller.kubeslice.io/project-finalizer"

abbrev label_project_namespace : String
label_project_namespace = "kubeslice-project-namespace"

abbrev with_metadata : ObjectMeta → Project → Project
with_metadata metadata project = record project { metadata = metadata }

abbrev project_object : Object Project
project_object = record {
  metadata = λ project. project.metadata;
  with_finalizers = λ finalizers project.
      with_metadata (record project.metadata { finalizers = finalizers }) project;
}

abbrev pub project_owner : Project → Owner
project_owner project = record { kind = "Project"; metadata = project.metadata }

-- The labels and annotations of the configuration map, and the namespace's label.
abbrev configured : (namespace : String) → Map String × Map String → Project → Project
configured namespace (labels, annotations) project =
    with_metadata
      (record project.metadata {
        labels = insert label_project_namespace namespace (put_all labels project.metadata.labels);
        annotations = put_all annotations project.metadata.annotations;
      })
      project

-- Step 7: all other labels are dropped.
abbrev only_namespace_label : (namespace : String) → Project → Project
only_namespace_label namespace project =
    with_metadata (record project.metadata { labels = (label_project_namespace, namespace) ∷ [] })
      project

abbrev default_slice_qos_config : (namespace : String) → SliceQosConfig
default_slice_qos_config namespace = record {
  metadata = named "default" namespace [];
  spec = record {
    queue_type = "HTB";
    priority = 0;
    tc_type = "BANDWIDTH_CONTROL";
    bandwidth_ceiling_kbps = 10000000;
    bandwidth_guaranteed_kbps = 1000000;
    dscp_class = "AF11";
  };
}

module _ {W : Type 0} (platform : Platform W) where
  -- CleanUpProjectResources
  unfoldable clean_up_project_resources : String → M W (Unit {0})
  clean_up_project_resources namespace = do
    delete_service_export_configs platform namespace
    delete_slice_configs platform namespace
    delete_clusters platform namespace
    delete_slice_qos_config platform namespace
    delete_namespace platform namespace

  -- json.Unmarshal of a value of the configuration map; a missing key is the empty text.
  abbrev unmarshalled : Option (Map String) → Outcome (Map String)
  unmarshalled none = err (message "json")
  unmarshalled (some parsed) = ok parsed

  abbrev value : ConfigMap → String → Outcome (Map String)
  value config key = unmarshalled (platform.unmarshal_map (get_or (lookup key config.contents) ""))

  abbrev read_config : Option ConfigMap → Outcome (Map String × Map String)
  read_config none = ok ([], [])
  read_config (some config) = elim (value config "labels") [
    | err e ↦ err e
    | panic ↦ panic
    | ok labels ↦ elim (value config "annotations") [
      | err e ↦ err e
      | panic ↦ panic
      | ok annotations ↦ ok (labels, annotations)
    ]
  ]

  -- getNamespaceConfigFromConfigMap
  unfoldable get_namespace_config_from_config_map : M W (Map String × Map String)
  get_namespace_config_from_config_map =
      asks (
        get_resource_if_exist platform.config_maps
          (record { namespace = "kubeslice-controller"; name = "namespace-labels-config" }))
      >>= λ found. asks (λ w. read_config found)

  -- Step 8
  abbrev create_default_qos : String → Option SliceQosConfig → M W (Unit {0})
  create_default_qos namespace (some found) = pure tt
  create_default_qos namespace none =
      create_resource platform.slice_qos_configs (default_slice_qos_config namespace) >> λ w. (
        ok tt,
        notify platform "slice_qos_config"
            (record { event = "EventDefaultSliceQoSConfigCreated"; action = "created" }) "default"
            w,
      )

  unfoldable ensure_default_qos : String → M W (Unit {0})
  ensure_default_qos namespace =
      asks (
        get_resource_if_exist platform.slice_qos_configs
          (record { namespace = namespace; name = "default" }))
      >>= create_default_qos namespace

  module _ (prefixes : Prefixes) where
    -- Steps 3 to 6: the roles, and the access of the users.
    unfoldable give_access : (namespace : String) → Project → M W Result
    give_access namespace project = do
      reconcile_worker_cluster_role platform namespace (project_owner project)
      reconcile_read_only_role platform namespace (project_owner project)
      reconcile_read_write_role platform namespace (project_owner project)
      reconcile_read_only_user_service_account_and_role_bindings platform prefixes namespace
          project.spec.service_account.read_only (project_owner project)
      reconcile_read_write_user_service_account_and_role_bindings platform prefixes namespace
          project.spec.service_account.read_write (project_owner project)

    -- Steps 1 to 8 for a project that is not being deleted.
    unfoldable establish_project : (namespace : String) → Project → M W Result
    unfolding give_access ensure_default_qos get_namespace_config_from_config_map
    establish_project namespace project = do
      config ← get_namespace_config_from_config_map
      let labelled = configured namespace config project
      update_resource platform.projects labelled
      reconcile_project_namespace platform namespace labelled.kind labelled.metadata
      give_access namespace labelled
      update_resource platform.projects (only_namespace_label namespace labelled)
      ensure_default_qos namespace
      pure done

    abbrev ensure_project_finalizer : Project → M W (Result × Project)
    ensure_project_finalizer project =
        elim (contains_string project.metadata.finalizers project_finalizer) [
          | true ↦ pure (done, project)
          | false ↦
              add_finalizer platform platform.projects project_object project_finalizer project
        ]

    unfoldable delete_project : (namespace : String) → Project → M W Result
    unfolding clean_up_project_resources
    delete_project namespace project =
        clean_up_project_resources namespace
        >> (λ w.
            reported platform "project"
              (record { event = "EventProjectDeleted"; action = "deleted" })
              (record { event = "EventProjectDeletionFailed"; action = "deletion_failed" })
              project.metadata.name
              ((remove_finalizer platform platform.projects project_object project_finalizer project
                  >> pure tt)
                w))
        >> pure done

    -- The prefix of the namespaces of projects has its hyphen.
    abbrev reconcile_found_project : (prefix : String) → Option Project → M W Result
    reconcile_found_project prefix none = pure done
    reconcile_found_project prefix (some project) =
        let namespace = prefix <> project.metadata.name in
        elim project.metadata.deletion_timestamp [
          | none ↦ (do
            owned ← ensure_project_finalizer project
            establish_project namespace owned.1)
          | some t ↦ delete_project namespace project
        ]

    -- ReconcileProject
    unfoldable reconcile_project : (prefix namespace name : String) → M W Result
    unfolding establish_project delete_project
    reconcile_project prefix namespace name =
        asks
          (get_resource_if_exist platform.projects (record { namespace = namespace; name = name }))
        >>= reconcile_found_project prefix
