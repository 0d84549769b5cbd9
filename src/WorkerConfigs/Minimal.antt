-- ===== src/WorkerConfigs/Minimal.antt =====
-- The creation of the worker slices of a slice (service/worker_slice_config_service.go). The map `label` that
-- the functions are given is changed in place, and their callers go on to use it: it is returned.
use kubeslice_controller.Common.{
  ℕ, String, false, List, [], ◌∷◌, Option, none, some, Map, lookup, insert, get_or,
}
use kubeslice_controller.Go.{already_exists, api, Outcome, ok, err, panic}
use kubeslice_controller.Go.Effect.{M, ◌>>=◌, ◌>>◌, pure, asks}
use kubeslice_controller.Go.Text.{◌<>◌, itoa}
use kubeslice_controller.Resources.Meta.{Key}
use kubeslice_controller.Resources.Slice.{SliceGatewayServiceType, QosProfile, ServiceAccess}
use kubeslice_controller.Resources.Slice as Slice
use kubeslice_controller.Resources.Worker.{WorkerSliceConfig}
use kubeslice_controller.Platform.{
  Platform, get_resource_if_exist, create_resource, update_resource,
}
use kubeslice_controller.Util.Ipam.{get_cluster_prefix_pool}
use kubeslice_controller.SliceWebhook.Updates.{
  default_slice_gateway_service_type, default_slice_gateway_service_protocol,
}
use kubeslice_controller.WorkerConfigs.Octets.{compute_cluster_map}
use kubeslice_controller.WorkerConfigs.Cleanup.{report, list_worker_slice_configs, clean_up_slices}

-- `WorkerSliceConfig{}` with a name, a namespace and labels, and the slice's name.
abbrev pub new_worker_slice : String → String → Map String → String → WorkerSliceConfig
new_worker_slice object_name namespace label slice_name = record {
  metadata = record {
    name = object_name;
    namespace = namespace;
    labels = label;
    annotations = [];
    finalizers = [];
    owner_references = [];
    deletion_timestamp = none;
  };
  spec = record {
    slice_name = slice_name;
    slice_subnet = "";
    slice_type = "";
    slice_gateway_provider = record {
      slice_gateway_type = "";
      slice_ca_type = "";
      slice_gateway_service_type = "";
      slice_gateway_protocol = "";
    };
    slice_ipam_type = "";
    qos_profile_details = record {
      queue_type = "";
      priority = 0;
      tc_type = "";
      bandwidth_ceiling_kbps = 0;
      bandwidth_guaranteed_kbps = 0;
      dscp_class = "";
    };
    namespace_isolation_profile = record {
      isolation_enabled = false;
      application_namespaces = [];
      allowed_namespaces = [];
    };
    octet = none;
    cluster_subnet_cidr = "";
    external_gateway_config = record {
      ingress = false;
      egress = false;
      ns_ingress = false;
      gateway_type = Slice.unset;
      vpc_service_access = record { ingress = false; egress = false };
    };
    overlay_network_deployment_mode = none;
  };
  status = record { onboarded_app_namespaces = [] };
}

-- The labels of a new worker slice, written into the given map.
abbrev pub with_labels : String → String → String → Map String → Map String
with_labels namespace name cluster label = insert "kubeslice-manager" "controller" (
    insert "worker-cluster" cluster
      (insert "original-slice-name" name (insert "project-namespace" namespace label)))

-- The fields that the loop sets in a worker slice, new or old.
abbrev pub with_network : WorkerSliceConfig → ℕ → String → String → String → WorkerSliceConfig
with_network slice octet subnet_cidr service_type protocol = record slice {
  spec = record slice.spec {
    octet = some octet;
    cluster_subnet_cidr = subnet_cidr;
    slice_gateway_provider = record slice.spec.slice_gateway_provider {
      slice_gateway_service_type = service_type;
      slice_gateway_protocol = protocol;
    };
  };
}

abbrev pub with_subnet : WorkerSliceConfig → String → WorkerSliceConfig
with_subnet slice subnet = record slice { spec = record slice.spec { slice_subnet = subnet } }

-- The annotation of an update; the time's text is that of its seconds.
abbrev pub touched : ℕ → WorkerSliceConfig → WorkerSliceConfig
touched now slice = record slice {
  metadata = record slice.metadata {
    annotations = insert "updatedTimestamp" (itoa now) slice.metadata.annotations;
  };
}

abbrev pub type_of_entry : Option SliceGatewayServiceType → String
type_of_entry none = default_slice_gateway_service_type
type_of_entry (some entry) = entry.service_type

abbrev pub protocol_of_entry : Option SliceGatewayServiceType → String
protocol_of_entry none = default_slice_gateway_service_protocol
protocol_of_entry (some entry) = entry.protocol

module _ {W : Type 0} (platform : Platform W) where
  -- After a write: a failure is reported, and ignored if the object exists already; then the success is
  -- reported.
  unfoldable pub after_write :
      (event action failed_event failed_action object_name : String)
      → Outcome (Unit {0}) × W
      → Outcome (Unit {0}) × W
  after_write event action failed_event failed_action object_name (ok u, w) =
      (ok tt, report platform event action object_name w)
  after_write event action failed_event failed_action object_name (err (api already_exists), w) = (
    ok tt,
    report platform event action object_name
        (report platform failed_event failed_action object_name w),
  )
  after_write event action failed_event failed_action object_name (err e, w) =
      (err e, report platform failed_event failed_action object_name w)
  after_write event action failed_event failed_action object_name (panic, w) = (panic, w)

  unfoldable pub create_worker_slice : WorkerSliceConfig → M W (Unit {0})
  unfolding after_write
  create_worker_slice slice w =
      after_write "EventWorkerSliceConfigCreated" "created" "EventWorkerSliceConfigCreationFailed"
        "creation_failed" slice.metadata.name
        (create_resource platform.worker_slice_configs slice w)

  unfoldable pub update_worker_slice : WorkerSliceConfig → M W (Unit {0})
  unfolding after_write
  update_worker_slice slice w =
      after_write "EventWorkerSliceConfigUpdated" "updated" "EventWorkerSliceConfigUpdateFailed"
        "update_failed" slice.metadata.name (update_resource platform.worker_slice_configs slice w)

  module _ (namespace name : String) where
    abbrev pub key_of_worker : String → Key
    key_of_worker cluster = record { namespace = namespace; name = name <> "-" <> cluster }

    -- A worker slice of a slice with no network, new or found; the label map that is left.
    unfoldable write_no_network : Map String → String → Option WorkerSliceConfig → M W (Map String)
    unfolding create_worker_slice update_worker_slice
    write_no_network label cluster none = do
      let labels = with_labels namespace name cluster label
      create_worker_slice (new_worker_slice (name <> "-" <> cluster) namespace labels name)
      pure labels
    write_no_network label cluster (some found) =
        λ w. (update_worker_slice (touched (platform.now w) found) >> pure label) w

    -- The loop of CreateMinimalWorkerSliceConfigForNoNetworkSlice.
    unfoldable no_network_clusters : Map String → List String → M W (Map String)
    unfolding write_no_network
    no_network_clusters label [] = pure label
    no_network_clusters label (cluster ∷ rest) = do
      found ← asks (get_resource_if_exist platform.worker_slice_configs (key_of_worker cluster))
      label' ← write_no_network label cluster found
      no_network_clusters label' rest

    -- CreateMinimalWorkerSliceConfigForNoNetworkSlice
    unfoldable pub create_minimal_worker_slice_config_for_no_network_slice :
        List String → Map String → M W (Map String)
    unfolding no_network_clusters
    create_minimal_worker_slice_config_for_no_network_slice clusters label = do
      clean_up_slices platform label namespace clusters
      no_network_clusters label clusters

    module _ (slice_subnet cluster_cidr : String) (types : Map SliceGatewayServiceType) where
      -- A worker slice with an octet, new or found.
      unfoldable pub write_network :
          Map String → String → ℕ → String → Option WorkerSliceConfig → M W (Map String)
      unfolding create_worker_slice update_worker_slice
      write_network label cluster octet subnet none = do
        let labels = with_labels namespace name cluster label
        let new = new_worker_slice (name <> "-" <> cluster) namespace labels name
        let entry = lookup cluster types
        create_worker_slice (
            with_subnet
              (with_network new octet subnet (type_of_entry entry) (protocol_of_entry entry))
              slice_subnet)
        pure labels
      write_network label cluster octet subnet (some found) = λ w.
          let entry = lookup cluster types in
          (update_worker_slice (
                touched (platform.now w)
                  (with_network found octet subnet (type_of_entry entry) (protocol_of_entry entry)))
              >> pure label)
            w

      -- The loop of CreateMinimalWorkerSliceConfig.
      unfoldable pub network_clusters : Map ℕ → Map String → List String → M W (Map String)
      unfolding write_network
      network_clusters cluster_map label [] = pure label
      network_clusters cluster_map label (cluster ∷ rest) = do
        found ← asks (get_resource_if_exist platform.worker_slice_configs (key_of_worker cluster))
        let octet = get_or (lookup cluster cluster_map) 0
        subnet ← asks (λ w. get_cluster_prefix_pool slice_subnet octet cluster_cidr)
        label' ← write_network label cluster octet subnet found
        network_clusters cluster_map label' rest

      -- CreateMinimalWorkerSliceConfig
      unfoldable pub create_minimal_worker_slice_config :
          List String → Map String → M W (Map ℕ × Map String)
      unfolding network_clusters
      create_minimal_worker_slice_config clusters label = do
        clean_up_slices platform label namespace clusters
        configs ← asks (list_worker_slice_configs platform label namespace)
        cluster_map ← asks (λ w. compute_cluster_map clusters configs)
        label' ← network_clusters cluster_map label clusters
        pure (cluster_map, label')
