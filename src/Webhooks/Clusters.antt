-- ===== src/Webhooks/Clusters.antt =====
-- The validations of the creation and of the update of clusters (service/cluster_webhook_validation.go),
-- and ValidateCoOrdinates (util/validations.go). strconv.ParseFloat with the comparisons of floating-point
-- numbers, and IsValidIP of k8s.io/apimachinery, are parameters. Of a list of errors the first stands for
-- the list.
use kubeslice_controller.Common.{
  ℕ, String, Bool, true, false, not, ◌&&◌, ◌||◌, List, [], ◌∷◌, Option, none, some, ◌==◌,
}
use kubeslice_controller.Go.{
  FieldError, invalid, Outcome, ok, err, field, reject_if, for_each, ◌>>◌,
}
use kubeslice_controller.Resources.Meta.{Namespace}
use kubeslice_controller.Resources.Cluster.{Cluster, GeoLocation}
use kubeslice_controller.Platform.{Platform, exists?}
use kubeslice_controller.Util.Projects.{check_for_project_namespace}

pub record Numbers : Type 1 where
  -- A floating-point number, and the parsing of one.
  pub Float : Type 0
  pub parse_float : String → Option Float
  -- Whether a number is outside of the range from minus a bound to the bound: below it or above it.
  pub is_beyond : (bound : ℕ) → Float → Bool
  -- The errors that IsValidIP finds in a text.
  pub ip_errors : String → List FieldError

module _ (numbers : Numbers) where
  abbrev is_out_of_range : (bound : ℕ) → Option numbers.Float → Bool
  is_out_of_range bound none = true
  is_out_of_range bound (some coordinate) = numbers.is_beyond bound coordinate

  -- ValidateCoOrdinates: whether the coordinates are wrong
  unfoldable validate_co_ordinates : (latitude longitude : String) → Bool
  validate_co_ordinates latitude longitude =
      is_out_of_range 90 (numbers.parse_float latitude)
      || is_out_of_range 180 (numbers.parse_float longitude)

  -- validateGeolocation
  unfoldable validate_geolocation : GeoLocation → Outcome (Unit {0})
  unfolding validate_co_ordinates
  validate_geolocation location =
      reject_if
        (not (location.latitude == "" && location.longitude == "")
          && validate_co_ordinates location.latitude location.longitude)
        (invalid "spec.clusterProperty.geoLocation" "Latitude and longitude are not valid")

  abbrev first_error : List FieldError → Outcome (Unit {0})
  first_error [] = ok tt
  first_error (e ∷ rest) = err (field e)

  -- validateNodeIPs
  unfoldable validate_node_ips : Cluster → Outcome (Unit {0})
  validate_node_ips cluster =
      for_each cluster.spec.node_ips (λ ip. first_error (numbers.ip_errors ip))

  -- ValidateClusterUpdate
  unfoldable validate_cluster_update : Cluster → Outcome (Unit {0})
  unfolding validate_geolocation validate_node_ips
  validate_cluster_update cluster =
      validate_geolocation cluster.spec.geo_location >> validate_node_ips cluster

  abbrev is_project_namespace : Option Namespace → Bool
  is_project_namespace none = false
  is_project_namespace (some namespace) = check_for_project_namespace namespace

  module _ {W : Type 0} (platform : Platform W) (w : W) where
    -- validateAppliedInProjectNamespace
    unfoldable validate_applied_in_project_namespace : Cluster → Outcome (Unit {0})
    validate_applied_in_project_namespace cluster =
        reject_if
          (not (
            is_project_namespace (
              exists? platform.namespaces
                (record { namespace = ""; name = cluster.metadata.namespace }) w)))
          (invalid "metadata.namespace" "cluster must be applied on project namespace")

    -- ValidateClusterCreate
    unfoldable validate_cluster_create : Cluster → Outcome (Unit {0})
    unfolding validate_applied_in_project_namespace validate_geolocation validate_node_ips
    validate_cluster_create cluster =
        validate_applied_in_project_namespace cluster
        >> validate_geolocation cluster.spec.geo_location
        >> validate_node_ips cluster
