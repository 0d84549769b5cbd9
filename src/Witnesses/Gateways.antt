-- ===== src/Witnesses/Gateways.antt =====
-- The theorems on gateways at concrete inputs.
use kubeslice_controller.Witnesses.Data.{
  linked, empty, settings, request, pair, addresses, cluster, worker,
}
use kubeslice_controller.Common.{
  ℕ, ◌+◌, ◌^◌, String, ◌≡◌, ◌≢◌, refl, true, false, List, [], ◌∷◌, inr, none, some, Map, lookup,
  insert, All, arith, ◌==◌, eq_iff,
}
use kubeslice_controller.Go.{ok}
use kubeslice_controller.Go.Effect.{◌>>=◌, asks, each}
use kubeslice_controller.Go.Text.{◌<>◌, itoa, split, join}
use kubeslice_controller.Resources.Worker.{WorkerSliceConfig}
use kubeslice_controller.Platform.{get_resource_if_exist}
use kubeslice_controller.Util.Ipam.{get_cluster_prefix_pool, find_cidr_by_max_clusters}
use kubeslice_controller.Util.Ipam.Pools.{network_text}
use kubeslice_controller.Util.OwnerLabels.{
  get_owner_label, get_owner_label_lem, with_parts, labels_kube_slice_controller, label_managed_by,
  concat_texts, Fits,
}
use kubeslice_controller.WorkerConfigs.Octets.{compute_cluster_map}
use kubeslice_controller.Gateways.Addresses.{NetworkAddresses, build_network_addresses}
use kubeslice_controller.Gateways.Addresses.Apart.{
  AreApart, build_network_addresses-AreApart, vpn_network_in_last_pool,
}
use kubeslice_controller.Gateways.Numbers.{calculate_gateway_number}
use kubeslice_controller.Gateways.Pairs.{server_object, client_object}
use kubeslice_controller.Gateways.Cleanup.{
  is_obsolete, is_obsolete_iff, narrowed, list_gateways, delete_gateway, cleanup_obsolete_gateways,
  cleanup_obsolete_gateways-eq-filter,
}
use kubeslice_controller.Gateways.Creation.{create_minimum_gateways_if_not_exists}
use kubeslice_controller.Gateways.Creation.Agreement.{
  built_pair-is_obsolete, create_minimum_gateways_if_not_exists-missing,
}

abbrev west_and_east : List WorkerSliceConfig
west_and_east = worker "west" (some 1) ∷ worker "east" none ∷ []

west≢east : ◌≢◌ {A = String} "west" "east"
west≢east h = let same : ("west" == "east") ≡ true = (eq_iff "west" "east").1 h in cc

addresses_example :
    (m : Map ℕ) × (built : NetworkAddresses) × (compute_cluster_map
        ("west" ∷ "east" ∷ "south" ∷ [])
        west_and_east
      ≡ ok m)
    × (build_network_addresses "10.1.0.0/16" "west" "east" m (find_cidr_by_max_clusters 16)
        ≡ ok built)
    × AreApart "10" "1" built.server_subnet built.client_subnet
unfolding lookup split
addresses_example =
    build_network_addresses-AreApart ("west" ∷ "east" ∷ "south" ∷ []) west_and_east 16 "10.1.0.0/16"
      "10" "1" "0" "0/16" "west" "east" (((west≢east, λ o e f. cc), tt), (tt, tt))
      (refl, (refl, tt)) (λ o e. ground arith, (λ o e. cc, tt)) (omega arith) (omega arith)
      (omega arith) refl refl refl west≢east

vpn_network_example :
    (third : ℕ) × (addresses.server_subnet ≡ network_text "10" "1" third 20)
    × (third + 2 ^ 4 ≡ 256)
    × (addresses.server_vpn_network ≡ "10" <> "." <> "1" <> "." <> itoa 255 <> "." <> "0")
unfolding lookup split itoa build_network_addresses get_cluster_prefix_pool join
vpn_network_example =
    vpn_network_in_last_pool "10.1.0.0/16" "10" "1" "0" "0/16" "west" "east" "/20"
      (("west", 15) ∷ ("east", 0) ∷ []) 3 15 addresses (omega arith) refl refl refl refl refl

cleanup_example :
    cleanup_obsolete_gateways linked "kubeslice-avesha" []
      ("west" ∷ "east" ∷ [])
      (("west", 0) ∷ ("east", 1) ∷ [])
      5
    ≡ (asks (λ v.
            narrowed linked
              (is_obsolete ("west" ∷ "east" ∷ []) (("west", 0) ∷ ("east", 1) ∷ []))
              (list_gateways linked [] "kubeslice-avesha" v))
          >>= λ gateways. each gateways (delete_gateway linked))
        5
cleanup_example =
    cleanup_obsolete_gateways-eq-filter ("west" ∷ "east" ∷ []) (("west", 0) ∷ ("east", 1) ∷ [])
      linked "kubeslice-avesha" [] 5
      (is_obsolete ("west" ∷ "east" ∷ []) (("west", 0) ∷ ("east", 1) ∷ []))
      (is_obsolete_iff ("west" ∷ "east" ∷ []) (("west", 0) ∷ ("east", 1) ∷ []))

built_pair_example :
    (is_obsolete
        ("west" ∷ "east" ∷ [])
        (("west", 1) ∷ ("east", 2) ∷ [])
        (server_object pair (cluster "west") (cluster "east") addresses [])
      ≡ false)
    × (is_obsolete
          ("west" ∷ "east" ∷ [])
          (("west", 1) ∷ ("east", 2) ∷ [])
          (client_object pair (cluster "west") (cluster "east") addresses [])
        ≡ false)
unfolding lookup
built_pair_example =
    built_pair-is_obsolete ("west" ∷ "east" ∷ []) (("west", 1) ∷ ("east", 2) ∷ []) pair
      (cluster "west") (cluster "east") addresses [] refl refl
      (unfold calculate_gateway_number in refl)

missing_example :
    create_minimum_gateways_if_not_exists empty settings request ("west" ∷ "east" ∷ []) [] 5
    ≡ (ok [], 5)
unfolding get_resource_if_exist
missing_example =
    create_minimum_gateways_if_not_exists-missing empty settings request ("west" ∷ "east" ∷ []) [] 5
      "east" (inr refl, (inr refl, tt)) refl refl

owner_label_example :
    (first : String) × (parts : List String) × (get_owner_label "SliceConfig-red"
      ≡ with_parts 1 parts (insert label_managed_by first labels_kube_slice_controller))
    × (concat_texts (first ∷ parts) ≡ "SliceConfig-red")
    × All Fits (first ∷ parts)
owner_label_example = get_owner_label_lem "SliceConfig-red"
