-- ===== src/Witnesses/Workers.antt =====
-- The theorems on worker slices at concrete inputs.
use kubeslice_controller.Witnesses.Data.{busy, Server, server, worker}
use kubeslice_controller.Common.{
  ℕ, ◌≤◌, ◌<◌, String, ◌≡◌, ◌≢◌, refl, true, List, [], ◌∷◌, none, some, Map, lookup, insert, arith,
  ◌==◌, eq_iff, All,
}
use kubeslice_controller.Go.{ok}
use kubeslice_controller.Go.Text.{itoa, split, join}
use kubeslice_controller.Resources.Worker.{WorkerSliceConfig}
use kubeslice_controller.Platform.{get_resource_if_exist, list_resources}
use kubeslice_controller.Util.Ipam.{get_cluster_prefix_pool}
use kubeslice_controller.WorkerConfigs.Octets.{compute_cluster_map}
use kubeslice_controller.WorkerConfigs.Octets.Reading.{AreConsistent, HasItsOctet}
use kubeslice_controller.WorkerConfigs.Octets.Filling.{IsInjective, HasOctet}
use kubeslice_controller.WorkerConfigs.Octets.Total.{
  compute_cluster_map_total, compute_cluster_map-lt,
}
use kubeslice_controller.WorkerConfigs.Cleanup.{
  IsKept, list_worker_slice_configs, clean_up_slices, clean_up_slices_keeps,
}
use kubeslice_controller.WorkerConfigs.Minimal.{
  with_labels, create_minimal_worker_slice_config, write_network, network_clusters,
  create_worker_slice, after_write,
}
use kubeslice_controller.WorkerConfigs.Labels.{
  IsLabelled, create_minimal_worker_slice_config-IsLabelled,
}
use kubeslice_controller.Platform.{create_resource}
use kubeslice_controller.Go.Effect.{each}

abbrev west_and_east : List WorkerSliceConfig
west_and_east = worker "west" (some 1) ∷ worker "east" none ∷ []

west≢east : ◌≢◌ {A = String} "west" "east"
west≢east h = let same : ("west" == "east") ≡ true = (eq_iff "west" "east").1 h in cc

consistent : AreConsistent (worker "west" (some 1) ∷ worker "east" none ∷ [])
unfolding lookup
consistent = (((west≢east, λ o e f. cc), tt), (tt, tt))

cluster_map_example :
    (m : Map ℕ) × (compute_cluster_map ("west" ∷ "east" ∷ "south" ∷ []) west_and_east ≡ ok m)
    × All (HasOctet m) ("west" ∷ "east" ∷ "south" ∷ [])
    × IsInjective m
    × All (HasItsOctet m) west_and_east
unfolding lookup
cluster_map_example =
    compute_cluster_map_total ("west" ∷ "east" ∷ "south" ∷ []) west_and_east consistent
      (refl, (refl, tt))

cluster_map_run :
    compute_cluster_map ("west" ∷ "east" ∷ "south" ∷ []) west_and_east
    ≡ ok (("west", 1) ∷ ("east", 0) ∷ ("south", 2) ∷ [])
unfolding compute_cluster_map lookup insert itoa
cluster_map_run = refl

cluster_map-lt_example : 2 < 16
unfolding lookup
cluster_map-lt_example =
    compute_cluster_map-lt ("west" ∷ "east" ∷ "south" ∷ []) west_and_east 16
      (λ o e. ground arith, (λ o e. cc, tt)) (omega arith)
      (("west", 1) ∷ ("east", 0) ∷ ("south", 2) ∷ []) "south" 2 cluster_map_run refl

kept : IsKept busy (λ (w : Server). 7 ≤ w) ("west" ∷ [])
kept = record { reports = λ event action name w h. h; deletions = λ object w out h. omega arith }

clean_up_slices_example : 7 ≤ (clean_up_slices busy [] "kubeslice-avesha" ("west" ∷ []) 7).1
clean_up_slices_example =
    clean_up_slices_keeps busy (λ (w : Server). 7 ≤ w) ("west" ∷ []) kept [] "kubeslice-avesha" 7
      (omega arith)

abbrev west_label : Map String
west_label = with_labels "kubeslice-avesha" "red" "west" []

label_run :
    create_minimal_worker_slice_config server "kubeslice-avesha" "red" "10.1.0.0/16" "/20" []
      ("west" ∷ [])
      []
      0
    ≡ (ok (("west", 0) ∷ [], west_label), 0)
unfolding create_minimal_worker_slice_config network_clusters write_network create_worker_slice
    after_write create_resource get_resource_if_exist clean_up_slices list_worker_slice_configs
    list_resources each compute_cluster_map get_cluster_prefix_pool split join itoa lookup insert
label_run = refl

IsLabelled_example : IsLabelled [] ("west" ∷ []) west_label
IsLabelled_example =
    create_minimal_worker_slice_config-IsLabelled server "kubeslice-avesha" "red" "10.1.0.0/16"
      "/20" [] ("west" ∷ []) [] (("west", 0) ∷ []) west_label 0 0 label_run
