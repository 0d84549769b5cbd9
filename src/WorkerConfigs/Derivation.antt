-- ===== src/WorkerConfigs/Derivation.antt =====
-- ReconcileWorkerSliceConfig (service/worker_slice_config_service.go): the worker slice of a cluster, as it is
-- derived from the slice. The copies by field name of the package copier are a parameter.
pub mod Choice
pub mod Isolation
use kubeslice_controller.Common.{
  ℕ, String, Bool, true, false, List, [], ◌∷◌, ◌++◌, Option, none, some, Map, lookup, insert,
  get_or, ◌==◌, ◌||◌, if◌then◌else◌,
}
use kubeslice_controller.Go.Effect.{M, ◌>>=◌, ◌>>◌, pure, asks}
use kubeslice_controller.Resources.Meta.{ObjectMeta, label}
use kubeslice_controller.Resources.Slice.{
  SliceConfig, SliceConfigSpec, SliceQosConfig, ExternalGatewayConfig, QosProfile,
  NamespaceIsolationProfile, SliceNamespaceSelection,
}
use kubeslice_controller.Resources.Slice as Slice
use kubeslice_controller.Resources.Worker.{
  WorkerSliceConfig, WorkerSliceConfigSpec, WorkerExternalGatewayConfig, WorkerIsolationProfile,
}
use kubeslice_controller.Platform.{Platform, get_resource_if_exist, update_resource}
use kubeslice_controller.Util.Arrays.{contains_string, remove_duplicates_from_array}
use kubeslice_controller.Util.Labels.{filter_labels_and_annotations, add_missing}
use kubeslice_controller.Util.Reconciliation.{Result, done, add_finalizer}
use kubeslice_controller.SliceWebhook.Updates.{get_slice_gw_svc_types}
use kubeslice_controller.WorkerConfigs.Minimal.{new_worker_slice, type_of_entry, protocol_of_entry}
use kubeslice_controller.WorkerConfigs.Recreation.{
  worker_slice_config_finalizer, worker_slice_object, reconcile_worker_slice_deleted,
}

-- What copier makes of a slice's spec, unless it fails, and of an external gateway, also where it fails.
pub record Copier : Type 0 where
  pub spec_of : SliceConfigSpec → Option WorkerSliceConfigSpec
  pub external_of : ExternalGatewayConfig → WorkerExternalGatewayConfig

-- copySpecFromSliceConfigToWorkerSlice: an empty spec where the copy fails.
unfoldable copy_spec_from_slice_config : Copier → SliceConfig → WorkerSliceConfigSpec
copy_spec_from_slice_config copier slice =
    get_or (copier.spec_of slice.spec) (new_worker_slice "" "" [] "").spec

-- `controllerv1alpha1.ExternalGatewayConfig{}`
abbrev pub no_external_gateway : ExternalGatewayConfig
no_external_gateway = record {
  ingress = false;
  egress = false;
  ns_ingress = false;
  gateway_type = Slice.unset;
  clusters = [];
  vpc_service_access = record { ingress = false; egress = false };
}

-- The tests for one cluster of an external gateway: whether the loops end here, with the gateway.
abbrev pub pick :
    {A : Type 0} (starred named : Bool) (config : A) → (otherwise starring : A × Bool) → A × Bool
pick true named config otherwise starring = starring
pick false true config otherwise starring = (config, true)
pick false false config otherwise starring = otherwise

module _ (worker_cluster : String) where
  unfoldable pub visit_clusters :
      ExternalGatewayConfig → List String → ExternalGatewayConfig → ExternalGatewayConfig × Bool
  visit_clusters config [] chosen = (chosen, false)
  visit_clusters config (cluster ∷ rest) chosen =
      pick (cluster == "*") (cluster == worker_cluster) config (visit_clusters config rest chosen)
        (visit_clusters config rest config)

  -- The loops labelled `outer`.
  unfoldable pub choose_external_gateway :
      List ExternalGatewayConfig → ExternalGatewayConfig → ExternalGatewayConfig
  unfolding visit_clusters
  choose_external_gateway [] chosen = chosen
  choose_external_gateway (config ∷ rest) chosen =
      let visited = visit_clusters config config.clusters chosen in
      let later = choose_external_gateway rest visited.0 in if visited.1 then visited.0 else later

  -- The namespace, once for each cluster that is `*` or the worker's.
  unfoldable pub namespace_for : String → List String → List String
  namespace_for namespace [] = []
  namespace_for namespace (cluster ∷ rest) =
      let later = namespace_for namespace rest in
      if cluster == "*" || cluster == worker_cluster then namespace ∷ later else later

  -- The loops over application namespaces, and over allowed namespaces.
  unfoldable pub worker_namespaces : List SliceNamespaceSelection → List String
  unfolding namespace_for
  worker_namespaces [] = []
  worker_namespaces (selection ∷ rest) =
      namespace_for selection.namespace (remove_duplicates_from_array selection.clusters)
      ++ worker_namespaces rest

  unfoldable pub worker_isolation_profile : NamespaceIsolationProfile → WorkerIsolationProfile
  unfolding worker_namespaces
  worker_isolation_profile profile = record {
    isolation_enabled = profile.isolation_enabled;
    application_namespaces = worker_namespaces profile.application_namespaces;
    allowed_namespaces = worker_namespaces profile.allowed_namespaces;
  }

-- The QoS profile, with the label that names it.
abbrev with_profile : QosProfile → WorkerSliceConfig → WorkerSliceConfig
with_profile profile worker = record worker {
  spec = record worker.spec { qos_profile_details = profile };
}

abbrev pub with_profile_label : String → WorkerSliceConfig → WorkerSliceConfig
with_profile_label name worker = record worker {
  metadata = record worker.metadata {
    labels = insert "standard-qos-profile" name worker.metadata.labels;
  };
}

module _ (copier : Copier) (slice : SliceConfig) where
  -- The copied spec, and the labels and annotations that the worker slice lacks.
  unfoldable pub copied : WorkerSliceConfig → WorkerSliceConfig
  unfolding copy_spec_from_slice_config add_missing filter_labels_and_annotations
  copied worker = record worker {
    metadata = record worker.metadata {
      labels =
          (add_missing (filter_labels_and_annotations slice.metadata.labels)
            worker.metadata.labels).0;
      annotations =
          (add_missing (filter_labels_and_annotations slice.metadata.annotations)
            worker.metadata.annotations).0;
    };
    spec = copy_spec_from_slice_config copier slice;
  }

  -- The rest of the spec; the octet and the subnet are those that the worker slice had.
  unfoldable pub completed :
      (octet : Option ℕ) (cluster_subnet_cidr : String) → WorkerSliceConfig → WorkerSliceConfig
  unfolding choose_external_gateway worker_isolation_profile get_slice_gw_svc_types
  completed octet cluster_subnet_cidr worker =
      let worker_cluster = label worker.metadata "worker-cluster" in
      let entry = lookup worker_cluster (get_slice_gw_svc_types slice) in
      record worker {
        spec = record worker.spec {
          external_gateway_config = copier.external_of (
              choose_external_gateway worker_cluster slice.spec.external_gateway_config
                no_external_gateway);
          slice_gateway_provider = record worker.spec.slice_gateway_provider {
            slice_gateway_service_type = type_of_entry entry;
            slice_gateway_protocol = protocol_of_entry entry;
          };
          namespace_isolation_profile =
              worker_isolation_profile worker_cluster slice.spec.namespace_isolation_profile;
          slice_name = slice.metadata.name;
          octet = octet;
          cluster_subnet_cidr = cluster_subnet_cidr;
        };
      }

module _ {W : Type 0} (platform : Platform W) (copier : Copier) (namespace : String) where
  abbrev pub write_completed : WorkerSliceConfig → SliceConfig → WorkerSliceConfig → M W Result
  write_completed old slice worker =
      update_resource platform.worker_slice_configs
        (completed copier slice old.spec.octet old.spec.cluster_subnet_cidr worker)
      >> pure done

  abbrev pub profile_of : SliceConfig → M W (Option SliceQosConfig)
  profile_of slice = asks (
      get_resource_if_exist platform.slice_qos_configs
        (record { namespace = namespace; name = slice.spec.standard_qos_profile_name }))

  -- A profile that is not there ends the run.
  abbrev pub with_found_profile :
      WorkerSliceConfig → SliceConfig → Option SliceQosConfig → M W Result
  with_found_profile old slice none = pure done
  with_found_profile old slice (some qos) = write_completed old slice (
      with_profile_label slice.spec.standard_qos_profile_name
        (with_profile qos.spec (copied copier slice old)))

  abbrev pub derive_if : (unnamed : Bool) → WorkerSliceConfig → SliceConfig → M W Result
  derive_if true old slice =
      write_completed old slice (with_profile_label "" (copied copier slice old))
  derive_if false old slice = profile_of slice >>= with_found_profile old slice

  -- Step 3 and what follows.
  unfoldable pub derive_worker_slice : WorkerSliceConfig → Option SliceConfig → M W Result
  unfolding copied completed
  derive_worker_slice old none = pure done
  derive_worker_slice old (some slice) =
      derive_if (slice.spec.standard_qos_profile_name == "") old slice

  abbrev pub ensure_if : (present : Bool) → WorkerSliceConfig → M W (Result × WorkerSliceConfig)
  ensure_if true worker = pure (done, worker)
  ensure_if false worker =
      add_finalizer platform platform.worker_slice_configs worker_slice_object
        worker_slice_config_finalizer worker

  abbrev pub ensure_worker_slice_finalizer : WorkerSliceConfig → M W (Result × WorkerSliceConfig)
  ensure_worker_slice_finalizer worker =
      ensure_if (contains_string worker.metadata.finalizers worker_slice_config_finalizer) worker

  -- The slice that the worker slice names, and the derivation from it.
  abbrev pub derive_owned : Result × WorkerSliceConfig → M W Result
  derive_owned owned =
      asks (
        get_resource_if_exist platform.slice_configs
          (record { namespace = namespace; name = owned.1.spec.slice_name }))
      >>= derive_worker_slice owned.1

  abbrev pub reconcile_unless_deleted : Option ℕ → WorkerSliceConfig → M W Result
  reconcile_unless_deleted none worker = ensure_worker_slice_finalizer worker >>= derive_owned
  reconcile_unless_deleted (some t) worker =
      reconcile_worker_slice_deleted platform namespace worker

  abbrev pub reconcile_found_worker_slice : Option WorkerSliceConfig → M W Result
  reconcile_found_worker_slice none = pure done
  reconcile_found_worker_slice (some worker) =
      reconcile_unless_deleted worker.metadata.deletion_timestamp worker

  -- ReconcileWorkerSliceConfig
  unfoldable pub reconcile_worker_slice_config : (name : String) → M W Result
  unfolding derive_worker_slice reconcile_worker_slice_deleted
  reconcile_worker_slice_config name =
      asks (
        get_resource_if_exist platform.worker_slice_configs
          (record { namespace = namespace; name = name }))
      >>= reconcile_found_worker_slice
