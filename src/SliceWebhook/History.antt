-- ===== src/SliceWebhook/History.antt =====
-- A slice over its whole life: its creation and the updates after it, each in its own state of the API
-- server (service/slice_config_webhook_validation.go).
use kubeslice_controller.Common.{ℕ, ◌≡◌, refl, sym, ap, ◌∙◌, true, arith, IsDistinct, ◌&&◌, not}
use kubeslice_controller.Go.{Outcome, ok, err, panic, ◌>>◌, reject_if, forbidden}
use kubeslice_controller.Resources.Slice.{
  SliceConfig, NetworkType, single_network, multi_network, no_network,
}
use kubeslice_controller.Platform.{Platform}
use kubeslice_controller.SliceWebhook.Isolation.{
  validate_application_namespaces, validate_application_namespace,
  validate_granted_cluster_namespaces, validate_allowed_namespaces,
  validate_namespace_isolation_profile,
}
use kubeslice_controller.SliceWebhook.Network.{
  validate_slice_subnet, validate_slicegateway_service_type, validate_qos_profile,
  validate_external_gateway_config,
}
use kubeslice_controller.SliceWebhook.Updates.{prevent_update, prevent_max_cluster_count_update}
use kubeslice_controller.SliceWebhook.Clusters.{
  has_network, validate_clusters_on_update, validate_present_cluster, validate_added_cluster,
  fetch_cluster, validate_cluster_network,
}
use kubeslice_controller.SliceWebhook.Handlers.{
  when, same_mode, validate_overlay, validate_slice_config_create, validate_slice_config_change,
  validate_slice_config_update,
}
use kubeslice_controller.SliceWebhook.Admission.{IsWithinBounds, validate_slice_config_create_lem}
use kubeslice_controller.SliceWebhook.Frozen.{
  IsUpdate, network_kept, validate_slice_config_change-IsUpdate,
}

-- The configurations that a slice can reach from the first one by updates that return no error.
pub data History {W : Type 0} (platform : Platform W) (first : SliceConfig)
    : SliceConfig → Type 0 where
  created : {last : SliceConfig} → first ≡ last → History platform first last
  updated :
      {last : SliceConfig} (new : SliceConfig) (w w' : W)
      → validate_slice_config_update platform new last w ≡ (ok tt, w')
      → History platform first last
      → History platform first new

change_if_update :
    {W : Type 0} (platform : Platform W) (new old : SliceConfig) (w w' : W)
    → validate_slice_config_update platform new old w ≡ (ok tt, w')
    → validate_slice_config_change platform w new old ≡ ok tt
unfolding validate_slice_config_update
change_if_update platform new old w w' h =
    go (validate_slice_config_change platform w new old) refl h
  where
    go :
        (r : Outcome (Unit {0}))
        → validate_slice_config_change platform w new old ≡ r
        → validate_slice_config_update platform new old w ≡ (ok tt, w')
        → r ≡ ok tt
    go (ok tt) e k = refl
    go (err x) e k = let wrong = rw e at k in cc
    go panic e k = let wrong = rw e at k in cc

-- What holds of a slice with an overlay network from its creation on.
pub record IsSound (first last : SliceConfig) : Type 0 where
  pub mode : first.spec.overlay_network_deployment_mode ≡ last.spec.overlay_network_deployment_mode
  pub subnet : first.spec.slice_subnet ≡ last.spec.slice_subnet
  pub max_clusters : first.spec.max_clusters ≡ last.spec.max_clusters
  pub within : IsWithinBounds last
  pub distinct : IsDistinct last.spec.clusters

IsSound-update :
    (first last new : SliceConfig)
    → has_network first.spec.overlay_network_deployment_mode ≡ true
    → IsSound first last
    → IsUpdate last new
    → IsSound first new
IsSound-update first last new n s u =
    let old_mode = last.spec.overlay_network_deployment_mode in
    let on : has_network old_mode ≡ true = rw (sym s.mode) n in
    let same = network_kept new.spec.overlay_network_deployment_mode old_mode u.mode on in
    let frozen = u.frozen same.0 in
    let most = u.max_clusters on in
    record {
      mode = s.mode ∙ same.0;
      subnet = s.subnet ∙ frozen.subnet;
      max_clusters = s.max_clusters ∙ most.0;
      within = ground (arith, s.within, most);
      distinct = u.distinct;
    }

-- A slice that is created with an overlay network keeps its mode, its subnet and its maximal number of
-- clusters over every sequence of accepted updates, whatever the API server's state is at each; the maximal
-- number stays between 2 and 32, and the clusters stay pairwise distinct and no more than it.
pub History-IsSound :
    {W : Type 0} (platform : Platform W) (w : W) (first last : SliceConfig)
    → validate_slice_config_create platform w first ≡ ok tt
    → has_network first.spec.overlay_network_deployment_mode ≡ true
    → History platform first last
    → IsSound first last
History-IsSound platform w first last h n (created e) =
    let start = validate_slice_config_create_lem platform w first h in
    rw (sym e) (record {
      mode = refl;
      subnet = refl;
      max_clusters = refl;
      within = start.3;
      distinct = start.1;
    })
History-IsSound platform w first last h n (updated {last = middle} new v v' k history) =
    IsSound-update first middle new n (History-IsSound platform w first middle h n history) (
      validate_slice_config_change-IsUpdate platform v new middle
        (change_if_update platform new middle v v' k))

abbrev with_max_clusters : SliceConfig → ℕ → SliceConfig
with_max_clusters slice n = record slice { spec = record slice.spec { max_clusters = n } }

-- The last block of an update from no network, whose check of the number is never made.
never_checked :
    (new old : NetworkType) (overlay : Outcome (Unit {0}) → Outcome (Unit {0}))
    (x y : Outcome (Unit {0}))
    → old ≡ no_network
    → when (has_network new) (overlay (when (not (not (same_mode new old))) x))
      ≡ when (has_network new) (overlay (when (not (not (same_mode new old))) y))
unfolding when
never_checked no_network old overlay x y h = refl
never_checked single_network no_network overlay x y h = refl
never_checked multi_network no_network overlay x y h = refl
never_checked single_network single_network overlay x y h = cc
never_checked single_network multi_network overlay x y h = cc
never_checked multi_network single_network overlay x y h = cc
never_checked multi_network multi_network overlay x y h = cc

-- Where the old configuration has no network, the part of ValidateSliceConfigUpdate that writes nothing has the
-- same outcome for every maximal number of clusters of the new one.
max_clusters_unchecked :
    {W : Type 0} (platform : Platform W) (w : W) (slice old : SliceConfig) (n : ℕ)
    → old.spec.overlay_network_deployment_mode ≡ no_network
    → validate_slice_config_change platform w (with_max_clusters slice n) old
      ≡ validate_slice_config_change platform w slice old
unfolding validate_slice_config_change validate_clusters_on_update validate_added_cluster
    validate_present_cluster fetch_cluster validate_cluster_network validate_application_namespaces
    validate_application_namespace validate_granted_cluster_namespaces validate_allowed_namespaces
    validate_namespace_isolation_profile prevent_update validate_overlay validate_slice_subnet
    validate_slicegateway_service_type validate_qos_profile validate_external_gateway_config
max_clusters_unchecked platform w slice old n h =
    let new_mode = slice.spec.overlay_network_deployment_mode in
    let old_mode = old.spec.overlay_network_deployment_mode in
    let change = λ (last : Outcome (Unit {0})). (do
      reject_if (not (same_mode new_mode old_mode) && has_network old_mode)
          (forbidden "Spec.OverlayNetworkDeploymentMode" "Slice cannot be transitioned")
      when (not (not (same_mode new_mode old_mode))) (prevent_update slice old)
      validate_clusters_on_update platform w slice old
      validate_application_namespaces platform w slice
      validate_allowed_namespaces slice
      validate_namespace_isolation_profile slice
      last) in
    ap change (
      never_checked new_mode old_mode (validate_overlay platform w slice)
        (prevent_max_cluster_count_update (with_max_clusters slice n) old)
        (prevent_max_cluster_count_update slice old) h)
