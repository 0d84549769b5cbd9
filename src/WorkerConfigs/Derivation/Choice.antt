-- ===== src/WorkerConfigs/Derivation/Choice.antt =====
-- The external gateway of a worker slice (service/worker_slice_config_service.go).
use kubeslice_controller.Common.{
  ℕ, String, ◌≡◌, refl, ap, ◌∙◌, Bool, true, false, ◌||◌, List, [], ◌∷◌, Option, none, some, get_or,
  contains, ◌==◌, eq_iff, if◌then◌else◌, arith,
}
use kubeslice_controller.Resources.Slice.{SliceConfig, ExternalGatewayConfig}
use kubeslice_controller.Resources.Meta.{label}
use kubeslice_controller.Resources.Worker.{WorkerSliceConfig}
use kubeslice_controller.WorkerConfigs.Derivation.{
  Copier, completed, no_external_gateway, pick, visit_clusters, choose_external_gateway,
}

module _ (worker_cluster : String) where
  -- The first external gateway that names the cluster.
  unfoldable pub first_naming : List ExternalGatewayConfig → Option ExternalGatewayConfig
  first_naming [] = none
  first_naming (config ∷ rest) =
      let later = first_naming rest in
      if contains config.clusters worker_cluster then some config else later

-- The last one that names `*`, or the given one.
unfoldable pub last_starred :
    List ExternalGatewayConfig → ExternalGatewayConfig → ExternalGatewayConfig
last_starred [] chosen = chosen
last_starred (config ∷ rest) chosen =
    last_starred rest (if contains config.clusters "*" then config else chosen)

visit_step :
    {A : Type 0} (starred named a b : Bool) (config chosen : A)
    → (starred ≡ true → named ≡ false)
    → pick starred named config
        (if a || b then config else chosen, a)
        (if a || b then config else config, a)
      ≡ (if (named || a) || (starred || b) then config else chosen, named || a)
visit_step true true a b config chosen h = let impossible = h refl in cc
visit_step true false true b config chosen h = refl
visit_step true false false true config chosen h = refl
visit_step true false false false config chosen h = refl
visit_step false true a b config chosen h = refl
visit_step false false a b config chosen h = refl

module _ (worker_cluster : String) (plain : (worker_cluster == "*") ≡ false) where
  visit_clusters_lem :
      (config : ExternalGatewayConfig) (clusters : List String) (chosen : ExternalGatewayConfig)
      → visit_clusters worker_cluster config clusters chosen ≡ (
        if contains clusters worker_cluster || contains clusters "*" then config else chosen,
        contains clusters worker_cluster,
      )
  unfolding visit_clusters
  visit_clusters_lem config [] chosen = refl
  visit_clusters_lem config (cluster ∷ rest) chosen =
      ap
        (λ o.
          pick (cluster == "*") (cluster == worker_cluster) config o
            (visit_clusters worker_cluster config rest config))
        (visit_clusters_lem config rest chosen)
      ∙ ap
          (λ o.
            pick (cluster == "*") (cluster == worker_cluster) config
              (
                if contains rest worker_cluster || contains rest "*" then config else chosen,
                contains rest worker_cluster,
              )
              o)
          (visit_clusters_lem config rest config)
      ∙ visit_step (cluster == "*") (cluster == worker_cluster) (contains rest worker_cluster)
          (contains rest "*") config chosen starred-unnamed
    where
      starred-unnamed : (cluster == "*") ≡ true → (cluster == worker_cluster) ≡ false
      starred-unnamed h = ground (
        arith,
        h,
        plain,
        eq_iff cluster "*",
        eq_iff cluster worker_cluster,
        eq_iff worker_cluster "*",
      )

  choose_external_gateway_lem :
      (configs : List ExternalGatewayConfig) (chosen : ExternalGatewayConfig)
      → choose_external_gateway worker_cluster configs chosen
        ≡ get_or (first_naming worker_cluster configs) (last_starred configs chosen)
  unfolding choose_external_gateway first_naming last_starred
  choose_external_gateway_lem [] chosen = refl
  choose_external_gateway_lem (config ∷ rest) chosen =
      ap
        (λ (visited : ExternalGatewayConfig × Bool).
          if visited.1 then visited.0 else choose_external_gateway worker_cluster rest visited.0)
        (visit_clusters_lem config config.clusters chosen)
      ∙ go (contains config.clusters worker_cluster) (contains config.clusters "*")
          (choose_external_gateway_lem rest)
    where
      go :
          (a b : Bool)
          → ((chosen : ExternalGatewayConfig)
              → choose_external_gateway worker_cluster rest chosen
                ≡ get_or (first_naming worker_cluster rest) (last_starred rest chosen))
          → (if a
              then (if a || b then config else chosen)
              else choose_external_gateway worker_cluster rest (if a || b then config else chosen))
            ≡ get_or
                (if◌then◌else◌ {A = Option ExternalGatewayConfig} a
                  (some config)
                  (first_naming worker_cluster rest))
                (last_starred rest (if b then config else chosen))
      go true b later = refl
      go false b later = later (if b then config else chosen)

-- The external gateway that a worker slice gets, unless its cluster is called `*`, is copied from the first
-- one of the slice that names the cluster; where none does, from the last one that names `*`; and where
-- none does either, from an empty one.
pub completed-external_gateway :
    (copier : Copier) (slice : SliceConfig) (octet : Option ℕ) (subnet : String)
    (worker : WorkerSliceConfig)
    → (label worker.metadata "worker-cluster" == "*") ≡ false
    → (completed copier slice octet subnet worker).spec.external_gateway_config
      ≡ copier.external_of (
          get_or
            (first_naming
              (label worker.metadata "worker-cluster")
              slice.spec.external_gateway_config)
            (last_starred slice.spec.external_gateway_config no_external_gateway))
unfolding completed
completed-external_gateway copier slice octet subnet worker plain = ap copier.external_of (
    choose_external_gateway_lem (label worker.metadata "worker-cluster") plain
      slice.spec.external_gateway_config no_external_gateway)
