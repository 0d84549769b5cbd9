-- ===== src/Witnesses/Services.antt =====
-- The theorems on slices, webhooks and finalizers at concrete inputs.
use kubeslice_controller.Witnesses.Data.{nothing, Server, server, worker, cluster}
use kubeslice_controller.Common.{
  ℕ, suc, Option, Map, inl, ◌%◌, ◌≤◌, ◌^◌, String, ◌≡◌, ◌≢◌, ◌↔◌, refl, true, List, [], ◌∷◌, some,
  none, lookup, insert, get_or, arith, ◌==◌, eq_iff,
}
use kubeslice_controller.Go.{ok}
use kubeslice_controller.Go.Text.{itoa}
use kubeslice_controller.Platform.{Platform, found, get_resource_if_exist}
use kubeslice_controller.Resources.Worker.{WorkerSliceConfig, WorkerSliceGateway}
use kubeslice_controller.Util.Ipam.{int_pow}
use kubeslice_controller.Util.Ipam.Capacity.{int_pow_lem}
use kubeslice_controller.Util.Reconciliation.{Object, done}
use kubeslice_controller.WorkerConfigs.Octets.{compute_cluster_map}
use kubeslice_controller.WorkerConfigs.Minimal.{network_clusters}
use kubeslice_controller.Platform.{list_resources}
use kubeslice_controller.Witnesses.Data.{exporting, export_of}
use kubeslice_controller.ServiceDiscovery.Imports.{lookup_service_export_for_service}
use kubeslice_controller.ServiceDiscovery.Exports.{clean_up_service_export_config_resources}
use kubeslice_controller.ServiceDiscovery.Exports.Kept.{
  clean_up_service_export_config_resources_keeps,
}
use kubeslice_controller.Resources.Slice.{SliceConfig}
use kubeslice_controller.Witnesses.Data.{onboarded, plain, busy}
use kubeslice_controller.Slices.Namespaces.{with_application_namespaces}
use kubeslice_controller.DefaultSlices.Operations.{update_default_slice}
use kubeslice_controller.DefaultSlices.Operations.Lacking.{update_default_slice-lacking}
use kubeslice_controller.Webhooks.Deletions.{
  validate_cluster_delete, IsRemovable, validate_cluster_delete_iff,
}
use kubeslice_controller.Webhooks.Exports.{validate_service_export_config_create}
use kubeslice_controller.Webhooks.Exports.Accepted.{
  InProject, AreMembers, validate_service_export_config_create_iff,
}
use kubeslice_controller.Webhooks.Workers.Accepted.{network_clusters_keeps}

int_pow_example : int_pow 7 30 ≡ 7 ^ 30 % 2 ^ 64
int_pow_example = int_pow_lem 7 30

gateway_object : Object WorkerSliceGateway
gateway_object = record {
  metadata = λ gateway. gateway.metadata;
  with_finalizers = λ finalizers gateway. gateway;
}

abbrev west_and_east : List WorkerSliceConfig
west_and_east = worker "west" (some 1) ∷ worker "east" none ∷ []

west≢east : ◌≢◌ {A = String} "west" "east"
west≢east h = let same : ("west" == "east") ≡ true = (eq_iff "west" "east").1 h in cc

abbrev octets : Map ℕ
octets = ("west", 1) ∷ ("east", 0) ∷ []

west_and_east_run : compute_cluster_map ("west" ∷ "east" ∷ []) west_and_east ≡ ok octets
unfolding compute_cluster_map lookup insert itoa
west_and_east_run = refl

-- A server with worker slices that have no octet yet, which counts the updates that give none.
abbrev fresh : Platform Server
fresh = record server {
  worker_slice_configs = record nothing {
    get = λ key w. found (worker "west" none);
    update = λ new w. (none, get_or (map_some new.spec.octet w) (suc w));
  };
}
  where
    map_some : Option ℕ → Server → Option Server
    map_some none w = none
    map_some (some o) w = some w

accepted_example :
    (network_clusters fresh "kubeslice-avesha" "red" "10.1.0.0/16" "/20" [] octets []
      ("west" ∷ "east" ∷ [])
      5).1
    ≡ 5
unfolding get_resource_if_exist lookup
accepted_example =
    network_clusters_keeps ("west" ∷ "east" ∷ []) west_and_east octets
      (((west≢east, λ o e f. cc), tt), (tt, tt)) west_and_east_run fresh "kubeslice-avesha" "red"
      "10.1.0.0/16" "/20" [] (λ (w : Server). w ≡ 5) (λ c old v h e. inl (cc))
      (λ c old new v e f octet accepted h. rw octet h) (λ c new v e f octet h. h)
      (λ event action name v h. h) ("west" ∷ "east" ∷ []) [] 5 refl

exports_kept_example :
    7
    ≤ (clean_up_service_export_config_resources exporting (export_of "west") "kubeslice-avesha" 7).1
unfolding lookup_service_export_for_service list_resources
exports_kept_example =
    clean_up_service_export_config_resources_keeps exporting (λ (w : Server). 7 ≤ w)
      (λ imported w h. omega arith) (export_of "west") "kubeslice-avesha"
      (export_of "west" ∷ export_of "east" ∷ []) 1 (export_of "east") 7 refl refl
      (λ h. let same : ("east" == "west") ≡ true = (eq_iff "east" "west").1 h in cc) (omega arith)

export_create_example :
    (validate_service_export_config_create exporting 7 (export_of "west") ≡ ok tt)
    ↔ (InProject exporting 7 (export_of "west") × AreMembers exporting 7 (export_of "west"))
export_create_example = validate_service_export_config_create_iff exporting 7 (export_of "west")

-- A project's default slice with the namespace of another cluster.
abbrev holding : SliceConfig
holding =
    with_application_namespaces (record { namespace = "shop"; clusters = "west" ∷ [] } ∷ []) plain

lacking_example :
    update_default_slice server "kubeslice-avesha" "north" "avesha-default-slice" onboarded holding
      7
    ≡ (ok done, 7)
lacking_example =
    update_default_slice-lacking server "kubeslice-avesha" "north" "avesha-default-slice" onboarded
      holding 7 (refl, tt) (refl, tt)

cluster_delete_example :
    (validate_cluster_delete busy 7 (cluster "west") ≡ ok tt) ↔ IsRemovable busy 7 (cluster "west")
cluster_delete_example = validate_cluster_delete_iff busy 7 (cluster "west")
