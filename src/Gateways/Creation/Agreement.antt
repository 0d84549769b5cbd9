-- ===== src/Gateways/Creation/Agreement.antt =====
-- How the creation of gateways and their cleanup agree (service/worker_slice_gateway_service.go).
use kubeslice_controller.Common.{
  ℕ, String, ◌≡◌, refl, sym, ◌∙◌, true, false, Bool-cases, inl, inr, ◌⊎◌, List, [], ◌∷◌, Map, none,
  some, contains, insert, All, ◌==◌, eq_iff, =?_iff, arith,
}
use kubeslice_controller.Go.{ok}
use kubeslice_controller.Resources.Cluster.{Cluster}
use kubeslice_controller.Resources.Worker.{WorkerSliceGateway}
use kubeslice_controller.Platform.{Platform, get_resource_if_exist}
use kubeslice_controller.Gateways.Numbers.{calculate_gateway_number}
use kubeslice_controller.Gateways.Numbers.Unique.{calculate_gateway_number_comm}
use kubeslice_controller.Gateways.Addresses.{NetworkAddresses, octet_of}
use kubeslice_controller.Gateways.Certs.{JobSettings}
use kubeslice_controller.Gateways.Pairs.{PairSpec, server_object, client_object}
use kubeslice_controller.Gateways.Cleanup.{is_obsolete}
use kubeslice_controller.Gateways.Creation.{
  Request, fetch_clusters, create_minimum_gateways_if_not_exists,
}

-- A gateway between two clusters of the slice, with the number of their octets, is kept.
current :
    (clusters : List String) (m : Map ℕ) (gateway : WorkerSliceGateway)
    → contains clusters gateway.spec.local_gateway_config.cluster_name ≡ true
    → contains clusters gateway.spec.remote_gateway_config.cluster_name ≡ true
    → calculate_gateway_number
        (octet_of m gateway.spec.local_gateway_config.cluster_name)
        (octet_of m gateway.spec.remote_gateway_config.cluster_name)
      ≡ gateway.spec.gateway_number
    → is_obsolete clusters m gateway ≡ false
unfolding is_obsolete
current clusters m gateway here there number = ground (
  arith,
  here,
  there,
  (=?_iff
        (calculate_gateway_number (octet_of m gateway.spec.local_gateway_config.cluster_name)
          (octet_of m gateway.spec.remote_gateway_config.cluster_name))
        gateway.spec.gateway_number).1
      number,
)

-- Of the gateways that are built for two clusters of a slice, with the number of the clusters' octets,
-- neither is obsolete for the same clusters and octets: the next run does not delete what this one makes.
pub built_pair-is_obsolete :
    (clusters : List String) (m : Map ℕ) (pair : PairSpec) (source destination : Cluster)
    (addresses : NetworkAddresses) (label : Map String)
    → contains clusters source.metadata.name ≡ true
    → contains clusters destination.metadata.name ≡ true
    → pair.number
      ≡ calculate_gateway_number
          (octet_of m source.metadata.name)
          (octet_of m destination.metadata.name)
    → (is_obsolete clusters m (server_object pair source destination addresses label) ≡ false)
      × (is_obsolete clusters m (client_object pair source destination addresses label) ≡ false)
unfolding server_object client_object
built_pair-is_obsolete clusters m pair source destination addresses label here there number = (
  current clusters m (server_object pair source destination addresses label) here there
      (sym number),
  current clusters m (client_object pair source destination addresses label) there here (
      calculate_gateway_number_comm (octet_of m destination.metadata.name)
        (octet_of m source.metadata.name)
      ∙ sym number),
)

module _ {W : Type 0} (platform : Platform W) (settings : JobSettings) (request : Request) where
  -- A cluster is not there, though the server answers.
  abbrev IsMissing : W → String → Type 0
  IsMissing w name =
      get_resource_if_exist platform.clusters
        (record { namespace = request.namespace; name = name }) w
      ≡ ok none

  abbrev IsPresent : W → String → Type 0
  IsPresent w name =
      (cluster : Cluster) × (get_resource_if_exist platform.clusters
          (record { namespace = request.namespace; name = name }) w
        ≡ ok (some cluster))

  fetch_clusters-missing :
      (clusters : List String) (mapping : Map Cluster) (w : W) (name : String)
      → All (λ c. IsPresent w c ⊎ IsMissing w c) clusters
      → contains clusters name ≡ true
      → IsMissing w name
      → fetch_clusters platform settings request clusters mapping w ≡ ok none
  unfolding fetch_clusters
  fetch_clusters-missing [] mapping w name answers here gone = cc
  fetch_clusters-missing (c ∷ rest) mapping w name (inr missing, answers) here gone =
      rw (fetch_clusters, missing) refl
  fetch_clusters-missing (c ∷ rest) mapping w name (inl (cluster, there), answers) here gone =
      rw (fetch_clusters, there)
        (fetch_clusters-missing rest (insert c cluster mapping) w name answers
          (elim (Bool-cases (c == name)) [
            | inl same ↦
                let e : c ≡ name = (eq_iff c name).0 same in
                absurd (present≢missing cluster w c there (rw e gone))
            | inr other ↦ ground (arith, other, here)
          ])
          gone)
    where
      present≢missing :
          (cluster : Cluster) (w : W) (c : String)
          → get_resource_if_exist platform.clusters
              (record { namespace = request.namespace; name = c })
              w
            ≡ ok (some cluster)
          → IsMissing w c
          → ⊥
      present≢missing cluster w c there gone = cc

  -- If the server answers for each cluster of the slice and has no object for one of them,
  -- createMinimumGatewaysIfNotExists makes no gateway for any two clusters, changes nothing, and returns no
  -- error.
  pub create_minimum_gateways_if_not_exists-missing :
      (clusters : List String) (label : Map String) (w : W) (name : String)
      → All (λ c. IsPresent w c ⊎ IsMissing w c) clusters
      → contains clusters name ≡ true
      → IsMissing w name
      → create_minimum_gateways_if_not_exists platform settings request clusters label w
        ≡ (ok label, w)
  unfolding create_minimum_gateways_if_not_exists
  create_minimum_gateways_if_not_exists-missing clusters label w name answers here gone =
      rw (fetch_clusters-missing clusters [] w name answers here gone) refl
