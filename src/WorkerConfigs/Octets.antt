-- ===== src/WorkerConfigs/Octets.antt =====
-- ComputeClusterMap of service/worker_slice_config_service.go: which octet each cluster of a slice gets.
pub mod Reading
pub mod Filling
pub mod Unused
pub mod Total
use kubeslice_controller.Common.{
  ℕ, zero, suc, ◌+◌, String, Bool, true, false, List, [], ◌∷◌, Option, none, some, Map, lookup,
  insert, get_or, ◌==◌, ◌=?◌, any, length, get_elem?, if◌then◌else◌, ◌≡◌, refl,
}
use kubeslice_controller.Go.{Outcome, ok, deref, ◌>>=◌}
use kubeslice_controller.Go.Text.{itoa}
use kubeslice_controller.Resources.Meta.{label}
use kubeslice_controller.Resources.Worker.{WorkerSliceConfig}

abbrev pub cluster_of : WorkerSliceConfig → String
cluster_of config = label config.metadata "worker-cluster"

-- The three maps of the first loop; `used_indexes` is the set of its true entries.
pub record Assigned : Type 0 where
  pub cluster_mapping : Map ℕ
  pub temp_cluster_mapping : Map String
  pub used_indexes : List ℕ

-- The first loop's body, for a worker slice of `cluster`.
unfoldable pub read_octet : Assigned → String → Option ℕ → Assigned
read_octet s cluster (some octet) = record {
  cluster_mapping = insert cluster octet s.cluster_mapping;
  temp_cluster_mapping = insert cluster (itoa octet) s.temp_cluster_mapping;
  used_indexes = octet ∷ s.used_indexes;
}
read_octet s cluster none = record s {
  temp_cluster_mapping = insert cluster "" s.temp_cluster_mapping;
}

unfoldable pub read_config : Assigned → WorkerSliceConfig → Assigned
unfolding read_octet
read_config s config = read_octet s (cluster_of config) config.spec.octet

unfoldable pub read_configs : Assigned → List WorkerSliceConfig → Assigned
read_configs s [] = s
read_configs s (config ∷ configs) = read_configs (read_config s config) configs

abbrev pub is_used : List ℕ → ℕ → Bool
is_used used index = any (λ u. u =? index) used

-- `for index := start; index < start + rounds; index++`: the indexes that are not used.
unfoldable pub unused_from : List ℕ → ℕ → ℕ → List ℕ
unused_from used zero start = []
unused_from used (suc rounds) start =
    let rest = unused_from used rounds (suc start) in
    if is_used used start then rest else start ∷ rest

-- `tempClusterMapping[clusterName] == ""`
abbrev pub is_unassigned : Map String → String → Bool
is_unassigned temp name = get_or (lookup name temp) "" == ""

-- The last loop; `unUsedIndexes[currentIndex]` panics out of range.
unfoldable pub fill : Map String → List ℕ → ℕ → List String → Map ℕ → Outcome (Map ℕ)
fill temp unused current [] mapping = ok mapping
fill temp unused current (name ∷ names) mapping =
    let taken = deref (get_elem? unused current) >>= λ index.
    fill temp unused (suc current) names (insert name index mapping) in
    let kept = fill temp unused current names mapping in
    if is_unassigned temp name then taken else kept

abbrev pub nothing_assigned : Assigned
nothing_assigned = record { cluster_mapping = []; temp_cluster_mapping = []; used_indexes = [] }

unfoldable pub compute_cluster_map : List String → List WorkerSliceConfig → Outcome (Map ℕ)
unfolding fill unused_from read_configs read_config
compute_cluster_map cluster_names configs =
    let s = read_configs nothing_assigned configs in
    fill s.temp_cluster_mapping (unused_from s.used_indexes (length cluster_names) 0) 0
      cluster_names s.cluster_mapping
