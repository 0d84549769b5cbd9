-- ===== src/Gateways/Addresses/Apart.antt =====
-- The addresses of two clusters of a slice, from the worker slices to the gateways.
use kubeslice_controller.Common.{
  ℕ, suc, ◌+◌, ◌*◌, ◌∙◌, arith, ◌≤◌, ◌<◌, ◌^◌, ◌-◌, String, ◌≡◌, ◌≢◌, refl, sym, true, List, [],
  ◌∷◌, Map, some, length, contains, All, All-contains,
}
use kubeslice_controller.Go.{ok, ok-injective}
use kubeslice_controller.Go.Text.{split, split_head}
use kubeslice_controller.Resources.Worker.{WorkerSliceConfig}
use kubeslice_controller.Util.Ipam.{get_cluster_prefix_pool, find_cidr_by_max_clusters}
use kubeslice_controller.Go.Text.{◌<>◌, itoa}
use kubeslice_controller.Util.Ipam.Pools.{
  network_text, IsApart, pools-IsApart, get_cluster_prefix_pool_lem, octet_diff_in_use,
}
use kubeslice_controller.WorkerConfigs.Octets.{compute_cluster_map, cluster_of}
use kubeslice_controller.WorkerConfigs.Octets.Reading.{AreConsistent}
use kubeslice_controller.WorkerConfigs.Octets.Filling.{HasOctet}
use kubeslice_controller.WorkerConfigs.Octets.Total.{
  compute_cluster_map_total, compute_cluster_map-lt,
}
use kubeslice_controller.Gateways.Addresses.{
  NetworkAddresses, octet_of, vpn_address, build_network_addresses,
}

-- Two subnets of one size with no address in common.
pub record AreApart (a b server client : String) : Type 0 where
  pub server_third : ℕ
  pub client_third : ℕ
  pub bits : ℕ
  pub server_is : server ≡ network_text a b server_third bits
  pub client_is : client ≡ network_text a b client_third bits
  pub apart : IsApart server_third client_third (2 ^ (24 - bits))

-- The addresses that BuildNetworkAddresses returns, where the two subnets are computed.
pub build_network_addresses_lem :
    (subnet a b x y source destination cidr server client : String) (m : Map ℕ)
    → split subnet "." ≡ a ∷ b ∷ x ∷ y ∷ []
    → get_cluster_prefix_pool subnet (octet_of m source) cidr ≡ ok server
    → get_cluster_prefix_pool subnet (octet_of m destination) cidr ≡ ok client
    → (addresses : NetworkAddresses) × (build_network_addresses subnet source destination m cidr
        ≡ ok addresses)
      × (addresses.server_subnet ≡ server)
      × (addresses.client_subnet ≡ client)
      × (addresses.server_vpn_network ≡ vpn_address a b "0")
unfolding build_network_addresses
build_network_addresses_lem subnet a b x y source destination cidr server client m e h k =
    let (server_net, sn) = split_head server "/" in
    let (client_net, cn) = split_head client "/" in
    (
      record {
        server_network = server_net;
        client_network = client_net;
        server_subnet = server;
        client_subnet = client;
        server_vpn_network = vpn_address a b "0";
        server_vpn_address = vpn_address a b "1";
        client_vpn_address = vpn_address a b "2";
      },
      rw (h, k, sn, cn, e) refl,
      refl,
      refl,
      refl,
    )

module _ (clusters : List String) (configs : List WorkerSliceConfig) (n : ℕ) where
  -- Let a slice have 2 to 256 as its maximal number of clusters, no more clusters than that, a subnet whose
  -- text has four parts, and worker slices that agree with one another, belong to its clusters and have
  -- octets below the maximum. Then for two different clusters of the slice ComputeClusterMap and
  -- BuildNetworkAddresses return, and the two subnets share no address and stay inside the slice's /16.
  pub build_network_addresses-AreApart :
      (subnet a b x y source destination : String)
      → AreConsistent configs
      → All (λ w. contains clusters (cluster_of w) ≡ true) configs
      → All (λ w. (o : ℕ) → w.spec.octet ≡ some o → o < n) configs
      → length clusters ≤ n
      → 1 < n
      → n ≤ 256
      → split subnet "." ≡ a ∷ b ∷ x ∷ y ∷ []
      → contains clusters source ≡ true
      → contains clusters destination ≡ true
      → source ≢ destination
      → (m : Map ℕ) × (addresses : NetworkAddresses) × (compute_cluster_map clusters configs ≡ ok m)
        × (build_network_addresses subnet source destination m (find_cidr_by_max_clusters n)
            ≡ ok addresses)
        × AreApart a b addresses.server_subnet addresses.client_subnet
  build_network_addresses-AreApart subnet a b x y source destination fit members small few lo hi e
        here there ne =
      let (m, run, all, injective, old) = compute_cluster_map_total clusters configs fit members in
      let (i, source_octet) = All-contains (HasOctet m) clusters source here all in
      let (j, destination_octet) = All-contains (HasOctet m) clusters destination there all in
      let below = compute_cluster_map-lt clusters configs n small few m in
      let differ : i ≢ j = λ same.
        ne (injective.apart source destination i source_octet (rw same destination_octet)) in
      let (s, t, bits, server, client, apart) =
        pools-IsApart subnet a b x y n i j lo hi (below source i run source_octet)
          (below destination j run destination_octet) differ e in
      let (addresses, built, server_is, client_is, vpn_is) =
        build_network_addresses_lem subnet a b x y source destination (find_cidr_by_max_clusters n)
          (network_text a b s bits) (network_text a b t bits) m e (rw source_octet server)
          (rw destination_octet client) in
      (
        m,
        addresses,
        run,
        built,
        record {
          server_third = s;
          client_third = t;
          bits = bits;
          server_is = server_is;
          client_is = client_is;
          apart = apart;
        },
      )

-- The last of the 2^(q + 1) subnets of prefix length q + 17 that a slice has room for contains the network
-- a.b.255.0 of which BuildNetworkAddresses takes the addresses of the tunnels: its third octets, the
-- 2^(7 - q) from `third` on, end with 255.
pub vpn_network_in_last_pool :
    (subnet a b x y source destination cidr : String) (m : Map ℕ) (q octet : ℕ)
    (addresses : NetworkAddresses)
    → q ≤ 7
    → split subnet "." ≡ a ∷ b ∷ x ∷ y ∷ []
    → cidr ≡ "/" <> itoa (q + 17)
    → octet_of m source ≡ octet
    → suc octet ≡ 2 ^ suc q
    → build_network_addresses subnet source destination m cidr ≡ ok addresses
    → (third : ℕ) × (addresses.server_subnet ≡ network_text a b third (q + 17))
      × (third + 2 ^ (7 - q) ≡ 256)
      × (addresses.server_vpn_network ≡ a <> "." <> b <> "." <> itoa 255 <> "." <> "0")
vpn_network_in_last_pool subnet a b x y source destination cidr m q octet addresses le e c at last
      run =
    let server : get_cluster_prefix_pool subnet (octet_of m source) cidr
        ≡ ok (network_text a b (octet * 2 ^ (7 - q)) (q + 17)) =
      rw (at, c) (get_cluster_prefix_pool_lem subnet a b x y q octet le e) in
    let client = get_cluster_prefix_pool_lem subnet a b x y q (octet_of m destination) le e in
    let (text, diff, room) = octet_diff_in_use q le in
    let (built, is_built, server_is, client_is, vpn_is) =
      build_network_addresses_lem subnet a b x y source destination cidr
        (network_text a b (octet * 2 ^ (7 - q)) (q + 17))
        (network_text a b (octet_of m destination * 2 ^ (7 - q)) (q + 17)) m e server
        (rw c client) in
    let step : suc octet * 2 ^ (7 - q) ≡ 256 = rw last room in
    let same : built ≡ addresses = ok-injective (sym is_built ∙ run) in
    (octet * 2 ^ (7 - q), rw (← same) server_is, omega (arith, step), rw (← same) vpn_is)
