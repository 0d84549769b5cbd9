-- ===== src/Platform.antt =====
-- What the program calls and does not implement: the API server through controller-runtime's client, the
-- event recorder, the metrics and the clock. `W` is all their state. Reads leave it as it is; what other
-- clients write between two calls is not modelled.
pub mod Reporting
use kubeslice_controller.Common.{ℕ, String, List, Option, none, some, Map, ◌⊎◌, inl, inr}
use kubeslice_controller.Go.{ApiError, api, Outcome, ok, err}
use kubeslice_controller.Go.Effect.{M}
use kubeslice_controller.Resources.Meta.{Key, Namespace, Job, Secret}
use kubeslice_controller.Resources.Slice.{SliceConfig, SliceQosConfig, ServiceExportConfig}
use kubeslice_controller.Resources.Cluster.{Cluster}
use kubeslice_controller.Resources.Worker.{
  WorkerSliceConfig, WorkerSliceGateway, WorkerServiceImport,
}
use kubeslice_controller.Resources.Rotation.{VpnKeyRotation}
use kubeslice_controller.Resources.Project.{Project, WorkerSliceGwRecycler}
use kubeslice_controller.Resources.Access.{Role, RoleBinding, Account, ConfigMap}

-- The answer of `client.Get`; `missing` is the error for which `IsNotFound` holds.
pub data Fetch (A : Type 0) : Type 0 where
  found : A → Fetch A
  missing : Fetch A
  failed : ApiError → Fetch A

-- The client's calls for one kind of object. `none` is a call that returns no error.
pub record Resource (W A : Type 0) : Type 0 where
  pub get : Key → W → Fetch A
  -- With MatchingLabels, and InNamespace if a namespace is given.
  pub list : Map String → Option String → W → ApiError ⊎ List A
  pub create : A → W → Option ApiError × W
  pub update : A → W → Option ApiError × W
  pub delete : A → W → Option ApiError × W

-- An event, and the counter that the program raises with it.
pub record Report : Type 0 where
  pub action : String
  pub event : String
  pub object_name : String
  pub object_kind : String

pub record Platform (W : Type 0) : Type 0 where
  pub namespaces : Resource W Namespace
  pub clusters : Resource W Cluster
  pub slice_configs : Resource W SliceConfig
  pub slice_qos_configs : Resource W SliceQosConfig
  pub service_export_configs : Resource W ServiceExportConfig
  pub worker_slice_configs : Resource W WorkerSliceConfig
  pub worker_slice_gateways : Resource W WorkerSliceGateway
  pub worker_service_imports : Resource W WorkerServiceImport
  pub vpn_key_rotations : Resource W VpnKeyRotation
  pub jobs : Resource W Job
  pub secrets : Resource W Secret
  pub projects : Resource W Project
  pub worker_slice_gw_recyclers : Resource W WorkerSliceGwRecycler
  pub roles : Resource W Role
  pub role_bindings : Resource W RoleBinding
  pub service_accounts : Resource W Account
  pub config_maps : Resource W ConfigMap
  -- `Status().Update` of a cluster
  pub update_cluster_status : Cluster → W → Option ApiError × W
  -- `json.Unmarshal` of a text into a map of texts
  pub unmarshal_map : String → Option (Map String)
  -- The order in which `range` takes the keys of a map.
  pub range_keys : List String → W → List String
  -- RecordEvent of the event recorder: the event's name and its object's.
  pub record_event : String → String → W → W
  -- RecordCounterMetric of the counter of events.
  pub record_metric : Report → W → W
  -- time.Now, in seconds
  pub now : W → ℕ
  -- The first eight characters of uuid.NewUUID.
  pub new_uuid : W → String
  -- net.ParseCIDR of a text that is no IPv4 network: the address and the prefix.
  pub parse_cidr6 : String → Option (ℕ × ℕ)

module _ {W A : Type 0} (r : Resource W A) where
  -- GetResourceIfExist
  unfoldable pub get_resource_if_exist : Key → W → Outcome (Option A)
  get_resource_if_exist key w = elim (r.get key w) [
    | found a ↦ ok (some a)
    | missing ↦ ok none
    | failed e ↦ err (api e)
  ]

  -- `exist, _ := GetResourceIfExist(…)`: the error is dropped.
  unfoldable pub exists? : Key → W → Option A
  unfolding get_resource_if_exist
  exists? key w = elim (get_resource_if_exist key w) [ ok o ↦ o | _ ↦ none ]

  -- ListResources
  unfoldable pub list_resources : Map String → Option String → W → Outcome (List A)
  list_resources labels namespace w = elim (r.list labels namespace w) [
    | inl e ↦ err (api e)
    | inr items ↦ ok items
  ]

  abbrev pub answer : Option ApiError × W → Outcome (Unit {0}) × W
  answer (none, w) = (ok tt, w)
  answer (some e, w) = (err (api e), w)

  -- CreateResource, UpdateResource, DeleteResource
  unfoldable pub create_resource : A → M W (Unit {0})
  create_resource object w = answer (r.create object w)

  unfoldable pub update_resource : A → M W (Unit {0})
  update_resource object w = answer (r.update object w)

  unfoldable pub delete_resource : A → M W (Unit {0})
  delete_resource object w = answer (r.delete object w)
