-- ===== src/Gateways/Creation.antt =====
-- The gateways of all pairs of a slice's clusters (service/worker_slice_gateway_service.go). The two loops over
-- indexes i < j are the recursion over the list and over the rest behind each element.
pub mod Agreement
pub mod HalfMade
use kubeslice_controller.Common.{
  ℕ, String, ◌≡◌, refl, Bool, true, false, List, [], ◌∷◌, Option, none, some, Map, lookup, insert,
  length, ltb,
}
use kubeslice_controller.Go.{Outcome, ok, err, panic, deref}
use kubeslice_controller.Go.Effect.{M, ◌>>=◌, ◌>>◌, pure, asks}
use kubeslice_controller.Resources.Meta.{Key}
use kubeslice_controller.Resources.Slice.{SliceGatewayServiceType}
use kubeslice_controller.Resources.Cluster.{Cluster}
use kubeslice_controller.Platform.{Platform, get_resource_if_exist}
use kubeslice_controller.WorkerConfigs.Minimal.{type_of_entry, protocol_of_entry}
use kubeslice_controller.Gateways.Numbers.{calculate_gateway_number}
use kubeslice_controller.Gateways.Addresses.{octet_of, build_network_addresses}
use kubeslice_controller.Gateways.Certs.{JobSettings}
use kubeslice_controller.Gateways.Pairs.{PairSpec, create_minimum_gateway_pair_if_not_exists}
use kubeslice_controller.Gateways.Cleanup.{cleanup_obsolete_gateways}

-- The arguments that the functions hand on.
pub record Request : Type 0 where
  pub slice_name : String
  pub namespace : String
  pub cluster_map : Map ℕ
  pub slice_subnet : String
  pub cluster_cidr : String
  pub types : Map SliceGatewayServiceType

module _ {W : Type 0} (platform : Platform W) (settings : JobSettings) (request : Request) where
  -- `clusterMapping`; `none` where a cluster is missing.
  unfoldable pub fetch_clusters : List String → Map Cluster → W → Outcome (Option (Map Cluster))
  fetch_clusters [] mapping w = ok (some mapping)
  fetch_clusters (name ∷ rest) mapping w =
      elim (get_resource_if_exist platform.clusters
        (record { namespace = request.namespace; name = name }) w) [
          | ok none ↦ ok none
          | ok (some cluster) ↦ fetch_clusters rest (insert name cluster mapping) w
          | err e ↦ err e
          | panic ↦ panic
        ]

  -- The body of the inner loop.
  unfoldable connect : Cluster → Cluster → Map String → M W (Map String)
  unfolding build_network_addresses create_minimum_gateway_pair_if_not_exists
  connect source destination label = do
    let here = source.metadata.name
    let there = destination.metadata.name
    addresses ← asks (λ w.
        build_network_addresses request.slice_subnet here there request.cluster_map
          request.cluster_cidr)
    let entry = lookup here request.types
    create_minimum_gateway_pair_if_not_exists
        (record {
          slice_name = request.slice_name;
          namespace = request.namespace;
          connectivity_type = type_of_entry entry;
          protocol = protocol_of_entry entry;
          number =
              calculate_gateway_number (octet_of request.cluster_map here)
                (octet_of request.cluster_map there);
        })
        source destination addresses platform settings label

  module _ (mapping : Map Cluster) where
    -- The inner loop.
    unfoldable connect_to : String → List String → Map String → M W (Map String)
    unfolding connect
    connect_to here [] label = pure label
    connect_to here (there ∷ rest) label = do
      source ← asks (λ w. deref (lookup here mapping))
      destination ← asks (λ w. deref (lookup there mapping))
      label' ← connect source destination label
      connect_to here rest label'

    -- The outer loop.
    unfoldable connect_all : List String → Map String → M W (Map String)
    unfolding connect_to
    connect_all [] label = pure label
    connect_all (here ∷ rest) label = do
      label' ← connect_to here rest label
      connect_all rest label'

  abbrev connect_if_found : List String → Map String → Option (Map Cluster) → M W (Map String)
  connect_if_found clusters label none = pure label
  connect_if_found clusters label (some mapping) = connect_all mapping clusters label

  -- createMinimumGatewaysIfNotExists: a missing cluster ends it without an error.
  unfoldable pub create_minimum_gateways_if_not_exists : List String → Map String → M W (Map String)
  unfolding fetch_clusters connect_all
  create_minimum_gateways_if_not_exists clusters label = do
    found ← asks (fetch_clusters clusters [])
    connect_if_found clusters label found

  abbrev unless_alone : Bool → List String → Map String → M W (Map String)
  unless_alone true clusters label = pure label
  unless_alone false clusters label = create_minimum_gateways_if_not_exists clusters label

  -- CreateMinimumWorkerSliceGateways
  unfoldable pub create_minimum_worker_slice_gateways : List String → Map String → M W (Map String)
  unfolding create_minimum_gateways_if_not_exists
  create_minimum_worker_slice_gateways clusters label = do
    cleanup_obsolete_gateways platform request.namespace label clusters request.cluster_map
    unless_alone (ltb (length clusters) 2) clusters label
