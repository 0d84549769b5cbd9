-- ===== src/SliceWebhook/Isolation.antt =====
-- Validation of the application and allowed namespaces (service/slice_config_webhook_validation.go).
use Prim.Native.Char.{Char, code}
use kubeslice_controller.Common.{
  String, Bool, true, false, not, ◌&&◌, ◌||◌, List, [], ◌∷◌, Option, none, some, ◌==◌, ltb, leb,
  length, get_elem?, if◌then◌else◌,
}
use kubeslice_controller.Go.{
  required, invalid, duplicate, Outcome, ok, reject_if, deref, for_each, ◌>>=◌, ◌>>◌,
}
use kubeslice_controller.Go.Text.{◌<>◌, join}
use kubeslice_controller.Resources.Slice.{SliceConfig, SliceNamespaceSelection}
use kubeslice_controller.Resources.Cluster.{Cluster, NamespacesConfig}
use kubeslice_controller.Platform.{Platform, exists?}
use kubeslice_controller.Util.Arrays.{contains_string, check_duplicate_in_array}
use kubeslice_controller.Util.Projects.{get_project_name, default_slice_name}

abbrev pub is_empty {ℓ} : {A : Type ℓ} → List A → Bool
is_empty [] = true
is_empty (x ∷ xs) = false

application_path : String
application_path = "Spec.NamespaceIsolationProfile.ApplicationNamespaces"

allowed_path : String
allowed_path = "Spec.NamespaceIsolationProfile.AllowedNamespaces"

-- The namespaces that a cluster reports; a cluster that cannot be read is the empty object.
abbrev reported_namespaces : Option Cluster → List NamespacesConfig
reported_namespaces none = []
reported_namespaces (some cluster) = cluster.status.namespaces

module _ {W : Type 0} (platform : Platform W) (w : W) (slice : SliceConfig) where
  -- validateGrantedClusterNamespaces
  unfoldable pub validate_granted_cluster_namespaces : String → String → String → Outcome (Unit {0})
  unfolding application_path
  validate_granted_cluster_namespaces cluster_name application_namespace slice_name =
      let cluster =
        exists? platform.clusters
          (record { namespace = slice.metadata.namespace; name = cluster_name }) w in
      let default = default_slice_name (get_project_name slice.metadata.namespace) in
      for_each (reported_namespaces cluster) (λ n.
        reject_if
          (application_namespace == n.name
            && not (n.slice_name == "")
            && not (n.slice_name == slice_name)
            && not (n.slice_name == default))
          (invalid application_path (
            "The given namespace: " <> application_namespace <> " in cluster " <> cluster_name
            <> " is already acquired by other slice: " <> n.slice_name)))

  -- The body of the loop of validateApplicationNamespaces.
  unfoldable pub validate_application_namespace : SliceNamespaceSelection → Outcome (Unit {0})
  unfolding application_path
  validate_application_namespace selection = do
    reject_if (not (selection.namespace == "") && is_empty selection.clusters)
        (required (application_path <> ".Clusters") "clusters")
    reject_if (selection.namespace == "" && not (is_empty selection.clusters))
        (required (application_path <> ".Namespace") "Namespace")
    let (dup, value) = check_duplicate_in_array selection.clusters
    reject_if dup (duplicate (application_path <> ".Clusters") (join value ", "))
    first ← deref (get_elem? selection.clusters 0)
    let default = default_slice_name (get_project_name slice.metadata.namespace)
    reject_if (first == "*" && default == slice.metadata.name) (
        invalid (application_path <> ".Clusters")
          "Namespace sameness is not allowed in default slice")
    for_each (if first == "*" then slice.spec.clusters else selection.clusters) (λ cluster_name.
        validate_granted_cluster_namespaces cluster_name selection.namespace slice.metadata.name)

  -- validateApplicationNamespaces
  unfoldable pub validate_application_namespaces : Outcome (Unit {0})
  unfolding validate_application_namespace
  validate_application_namespaces =
      for_each slice.spec.namespace_isolation_profile.application_namespaces
        validate_application_namespace

-- validateAllowedNamespaces
unfoldable pub validate_allowed_namespaces : SliceConfig → Outcome (Unit {0})
unfolding allowed_path
validate_allowed_namespaces slice =
    for_each slice.spec.namespace_isolation_profile.allowed_namespaces (λ selection.
      let (dup, value) = check_duplicate_in_array selection.clusters in
      reject_if dup (duplicate (allowed_path <> ".Clusters") (join value ", ")))

-- The class [a-zA-Z0-9-]
abbrev is_name_char : Char → Bool
is_name_char c =
    (leb b'a' (code c) && leb (code c) b'z')
    || (leb b'A' (code c) && leb (code c) b'Z')
    || (leb b'0' (code c) && leb (code c) b'9')
    || (leb b'-' (code c) && leb (code c) b'-')

-- regexp.MatchString("^[a-zA-Z0-9-]+$", …)
unfoldable pub is_namespace_name : String → Bool
is_namespace_name String.[] = false
is_namespace_name (String.◌∷◌ c String.[]) = is_name_char c
is_namespace_name (String.◌∷◌ c (String.◌∷◌ d s)) =
    is_name_char c && is_namespace_name (String.◌∷◌ d s)

-- The checks of validateNamespaceIsolationProfile on the clusters of one selection.
unfoldable pub validate_selected_clusters : String → List String → List String → Outcome (Unit {0})
validate_selected_clusters path participating clusters = do
  reject_if (contains_string clusters "*" && ltb 1 (length clusters))
      (invalid (path <> ".Clusters") "Other clusters are not allowed when * is present")
  for_each clusters (λ cluster.
      reject_if (not (cluster == "*") && not (contains_string participating cluster))
        (invalid (path <> ".Clusters") "Cluster is not participating in slice config"))

-- Its first loop; `checked` holds the namespaces seen so far.
unfoldable pub application_selections :
    List String → List String → List SliceNamespaceSelection → Outcome (Unit {0})
unfolding application_path
application_selections participating checked [] = ok tt
application_selections participating checked (selection ∷ rest) = do
  let ns = selection.namespace
  reject_if (not (is_namespace_name ns))
      (invalid (application_path <> ".Namespace") "Namespaces cannot contain special characteres")
  reject_if (contains_string checked ns) (duplicate (application_path <> ".Namespace") ns)
  validate_selected_clusters application_path participating selection.clusters
  application_selections participating (ns ∷ checked) rest

-- Its second loop.
unfoldable pub allowed_selections :
    List String → List String → List SliceNamespaceSelection → Outcome (Unit {0})
unfolding allowed_path
allowed_selections participating checked [] = ok tt
allowed_selections participating checked (selection ∷ rest) = do
  let ns = selection.namespace
  reject_if (ns == "" && not (is_empty selection.clusters))
      (required (allowed_path <> ".Namespace") ns)
  reject_if (not (is_namespace_name ns))
      (invalid (allowed_path <> ".Namespace") "Namespaces cannot contain special characteres")
  reject_if (not (ns == "") && is_empty selection.clusters)
      (required (allowed_path <> ".Clusters") "clusters")
  reject_if (contains_string checked ns) (duplicate (allowed_path <> ".Namespace") ns)
  validate_selected_clusters allowed_path participating selection.clusters
  allowed_selections participating (ns ∷ checked) rest

-- validateNamespaceIsolationProfile: its early return for two empty lists is what the loops give.
unfoldable pub validate_namespace_isolation_profile : SliceConfig → Outcome (Unit {0})
validate_namespace_isolation_profile slice = do
  let profile = slice.spec.namespace_isolation_profile
  application_selections slice.spec.clusters [] profile.application_namespaces
  allowed_selections slice.spec.clusters [] profile.allowed_namespaces
