-- ===== src/SliceWebhook/ExternalGateways.antt =====
-- What the validation of the external gateways accepts
-- (validateExternalGatewayConfig of service/slice_config_webhook_validation.go).
use kubeslice_controller.Common.{
  ℕ, ◌+◌, ◌≤◌, String, ◌≡◌, refl, subst, ◌∙◌, sym, ◌⊎◌, Bool, true, false, not, ◌&&◌, List, [], ◌∷◌,
  ◌++◌, ◌==◌, eq_iff, arith, contains, IsDistinct, All, All-append, ltb, length,
}
use mathlib.Core.List.{append_assoc, append-nil}
use kubeslice_controller.Go.{FieldError, ok, reject_if}
use kubeslice_controller.Go.Accepts.{reject_if->>_iff, reject_if_iff, value_of}
use kubeslice_controller.Resources.Slice.{SliceConfig, ExternalGatewayConfig}
use kubeslice_controller.Util.Arrays.{contains_string, check_duplicate_in_array}
use kubeslice_controller.Util.Arrays.Laws.{
  contains_string-contains, check_duplicate_in_array-IsDistinct,
}
use kubeslice_controller.SliceWebhook.Network.{
  external_clusters, external_from, validate_external_gateway_config,
}

-- The clusters of all entries, in their order.
abbrev pub clusters_of_gateways : List ExternalGatewayConfig → List String
clusters_of_gateways [] = []
clusters_of_gateways (config ∷ rest) = config.clusters ++ clusters_of_gateways rest

-- A star or a cluster of the slice.
abbrev pub IsGatewayCluster : List String → String → Type 0
IsGatewayCluster participating name = (name ≡ "*") ⊎ (contains participating name ≡ true)

-- A gateway with a star names no other cluster.
abbrev pub StarIsAlone : ExternalGatewayConfig → Type 0
StarIsAlone config = contains config.clusters "*" ≡ true → length config.clusters ≤ 1

StarIsAlone-test :
    (config : ExternalGatewayConfig)
    → contains_string config.clusters "*" && ltb 1 (length config.clusters) ≡ false
    → StarIsAlone config
StarIsAlone-test config h =
    λ star. ground (arith, h, star, contains_string-contains config.clusters "*")

star_tested : (b : Bool) (e : FieldError) {u : Unit {0}} → reject_if b e ≡ ok u → b ≡ false
star_tested true e h = cc
star_tested false e h = refl

external_clusters-All :
    (participating clusters : List String)
    → external_clusters participating clusters ≡ ok tt
    → All (IsGatewayCluster participating) clusters
unfolding external_clusters
external_clusters-All participating [] h = tt
external_clusters-All participating (cluster ∷ rest) h =
    let a =
      (reject_if->>_iff (not (cluster == "*") && not (contains_string participating cluster)) _ _).0
        h in
    (
      ground (arith, a.0, contains_string-contains participating cluster, eq_iff cluster "*"),
      external_clusters-All participating rest a.1,
    )

external_from_lem :
    (participating : List String) (count : ℕ) (all_clusters : List String)
    (configs : List ExternalGatewayConfig) (n : ℕ) (names : List String)
    → external_from participating count all_clusters configs ≡ ok (n, names)
    → (names ≡ all_clusters ++ clusters_of_gateways configs)
      × All (IsGatewayCluster participating) (clusters_of_gateways configs)
      × All StarIsAlone configs
unfolding external_from
external_from_lem participating count all_clusters [] n names h =
    let same : all_clusters ≡ names = cc in (sym same ∙ sym (append-nil all_clusters), tt, tt)
external_from_lem participating count all_clusters (config ∷ rest) n names h =
    let star = contains_string config.clusters "*" in
    let (u, a, h1) = value_of (reject_if (star && ltb 1 (length config.clusters)) _) _ h in
    let (v, b, h2) = value_of (external_clusters participating config.clusters) _ h1 in
    let (same, later, alone) =
      external_from_lem participating (elim star [ true ↦ count + 1 | false ↦ count ])
        (all_clusters ++ config.clusters) rest n names h2 in
    (
      same ∙ append_assoc all_clusters config.clusters (clusters_of_gateways rest),
      All-append (IsGatewayCluster participating) config.clusters (clusters_of_gateways rest)
          (external_clusters-All participating config.clusters b) later,
      (StarIsAlone-test config (star_tested (star && ltb 1 (length config.clusters)) _ a), alone),
    )

-- validateExternalGatewayConfig returns no error only where the clusters that the gateways name are a star or
-- participating clusters, none of them is named twice, over all gateways, and a gateway with a star names
-- nothing else.
pub validate_external_gateway_config_lem :
    (slice : SliceConfig)
    → validate_external_gateway_config slice ≡ ok tt
    → All
        (IsGatewayCluster slice.spec.clusters)
        (clusters_of_gateways slice.spec.external_gateway_config)
      × IsDistinct (clusters_of_gateways slice.spec.external_gateway_config)
      × All StarIsAlone slice.spec.external_gateway_config
unfolding validate_external_gateway_config
validate_external_gateway_config_lem slice h =
    let ((n, names), run, tests) =
      value_of (external_from slice.spec.clusters 0 [] slice.spec.external_gateway_config) _ h in
    let (same, all, alone) =
      external_from_lem slice.spec.clusters 0 [] slice.spec.external_gateway_config n names run in
    let a = (reject_if->>_iff (ltb 1 n) _ _).0 tests in
    let b = (reject_if_iff (check_duplicate_in_array names).0 _).0 a.1 in
    (all, subst IsDistinct same ((check_duplicate_in_array-IsDistinct names).0 b), alone)
