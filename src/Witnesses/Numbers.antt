-- ===== src/Witnesses/Numbers.antt =====
-- The theorems on gateways, subnets and lists at concrete inputs.
use kubeslice_controller.Common.{ℕ, ◌+◌, ◌^◌, ◌-◌, ◌≤◌, ◌≡◌, refl, [], ◌∷◌, arith, contains}
use kubeslice_controller.Go.{ok}
use kubeslice_controller.Go.Text.{◌<>◌, itoa, split}
use kubeslice_controller.Util.Arrays.{remove_duplicates_from_array}
use kubeslice_controller.Util.Arrays.Laws.{contains-remove_duplicates_from_array}
use kubeslice_controller.Util.Ipam.{find_cidr_by_max_clusters, get_cluster_prefix_pool}
use kubeslice_controller.Util.Ipam.Capacity.{IsTight, find_cidr_by_max_clusters-IsTight}
use kubeslice_controller.Util.Ipam.Pools.{network_text, pools-IsApart, IsApart}
use kubeslice_controller.Gateways.Numbers.Unique.{calculate_gateway_number_unique}

gateway_number_example : ◌≡◌ {A = ℕ} 1 1 × ◌≡◌ {A = ℕ} 3 3
gateway_number_example =
    calculate_gateway_number_unique 1 3 1 3 (omega arith) (omega arith) (omega arith) (omega arith)
      refl

cidr_example :
    (q : ℕ) × (find_cidr_by_max_clusters 16 ≡ "/" <> itoa (q + 17)) × (q ≤ 7) × IsTight 16 q
cidr_example = find_cidr_by_max_clusters-IsTight 16 (omega arith) (omega arith)

remove_duplicates_example :
    contains (remove_duplicates_from_array ("west" ∷ "west" ∷ [])) "west"
    ≡ contains ("west" ∷ "west" ∷ []) "west"
remove_duplicates_example = contains-remove_duplicates_from_array ("west" ∷ "west" ∷ []) "west"

pools_example :
    (s t bits : ℕ) × (get_cluster_prefix_pool "10.1.0.0/16" 0 (find_cidr_by_max_clusters 16)
      ≡ ok (network_text "10" "1" s bits))
    × (get_cluster_prefix_pool "10.1.0.0/16" 3 (find_cidr_by_max_clusters 16)
        ≡ ok (network_text "10" "1" t bits))
    × IsApart s t (2 ^ (24 - bits))
unfolding split
pools_example =
    pools-IsApart "10.1.0.0/16" "10" "1" "0" "0/16" 16 0 3 (omega arith) (omega arith) (omega arith)
      (omega arith) (λ e. omega arith) refl
