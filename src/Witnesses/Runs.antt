-- ===== src/Witnesses/Runs.antt =====
-- Runs of the definitions at concrete inputs.
use kubeslice_controller.Common.{◌≡◌, refl, [], ◌∷◌, lookup, insert}
use kubeslice_controller.Go.{ok}
use kubeslice_controller.Go.Text.{itoa, atoi, split, join, remove_all}
use kubeslice_controller.Util.Ipam.{get_cluster_prefix_pool, find_cidr_by_max_clusters}
use kubeslice_controller.Util.Projects.{get_project_name}
use kubeslice_controller.WorkerConfigs.Octets.{compute_cluster_map}

itoa_204 : itoa 204 ≡ "204"
unfolding itoa
itoa_204 = refl

atoi_20 : atoi (remove_all "/20" "/") ≡ 20
unfolding atoi remove_all
atoi_20 = refl

split_subnet : split "10.1.0.0/16" "." ≡ "10" ∷ "1" ∷ "0" ∷ "0/16" ∷ []
unfolding split
split_subnet = refl

pool_3 : get_cluster_prefix_pool "10.1.0.0/16" 3 (find_cidr_by_max_clusters 16) ≡ ok "10.1.48.0/20"
unfolding get_cluster_prefix_pool find_cidr_by_max_clusters split join itoa
pool_3 = refl

project_of_namespace : get_project_name "kubeslice-avesha" ≡ "avesha"
unfolding get_project_name split
project_of_namespace = refl

first_map : compute_cluster_map ("a" ∷ "b" ∷ []) [] ≡ ok (("a", 0) ∷ ("b", 1) ∷ [])
unfolding compute_cluster_map lookup insert
first_map = refl
