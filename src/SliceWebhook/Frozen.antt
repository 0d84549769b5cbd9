-- ===== src/SliceWebhook/Frozen.antt =====
-- What an accepted update of a slice leaves as it is (service/slice_config_webhook_validation.go).
use kubeslice_controller.Common.{
  ◌≤◌, ◌≡◌, refl, sym, subst, ◌⊎◌, inl, inr, Bool, true, false, not, ◌&&◌, Option, none, some,
  lookup, ◌==◌, eq_iff, arith, IsDistinct, All, All-map, length,
}
use kubeslice_controller.Go.{ok}
use kubeslice_controller.Go.Accepts.{reject_if->>_iff, >>_iff, for_each_iff}
use kubeslice_controller.Resources.Slice.{
  SliceConfig, NetworkType, single_network, multi_network, no_network, WorkerSliceGatewayProvider,
  SliceGatewayServiceType, VpnConfiguration,
}
use kubeslice_controller.Platform.{Platform}
use kubeslice_controller.Util.Arrays.{check_duplicate_in_array, contains_string}
use kubeslice_controller.Util.Arrays.Laws.{check_duplicate_in_array-IsDistinct}
use kubeslice_controller.SliceWebhook.Clusters.{has_network, validate_clusters_on_update}
use kubeslice_controller.SliceWebhook.Updates.{
  prevent_update, provider_unchanged, cipher_unchanged, service_type_unchanged,
  get_slice_gw_svc_types, new_service_types, prevent_max_cluster_count_update,
}
use kubeslice_controller.SliceWebhook.Network.{validate_slice_subnet}
use kubeslice_controller.SliceWebhook.Isolation.{
  validate_application_namespaces, validate_allowed_namespaces,
  validate_namespace_isolation_profile,
}
use kubeslice_controller.SliceWebhook.Handlers.{
  when, same_mode, validate_overlay, validate_slice_config_change,
}

same_mode_iff : (a b : NetworkType) → same_mode a b ≡ true → a ≡ b
same_mode_iff single_network single_network h = refl
same_mode_iff single_network multi_network h = cc
same_mode_iff single_network no_network h = cc
same_mode_iff multi_network single_network h = cc
same_mode_iff multi_network multi_network h = refl
same_mode_iff multi_network no_network h = cc
same_mode_iff no_network single_network h = cc
same_mode_iff no_network multi_network h = cc
same_mode_iff no_network no_network h = refl

-- The gateways' provider, where both configurations have one.
abbrev KeepsProvider :
    Option WorkerSliceGatewayProvider → Option WorkerSliceGatewayProvider → Type 0
KeepsProvider old new =
    (p q : WorkerSliceGatewayProvider)
    → old ≡ some p
    → new ≡ some q
    → (p.slice_gateway_type ≡ q.slice_gateway_type) × (p.slice_ca_type ≡ q.slice_ca_type)

-- A cipher that was set.
abbrev KeepsCipher : Option VpnConfiguration → Option VpnConfiguration → Type 0
KeepsCipher old new =
    (p : VpnConfiguration)
    → old ≡ some p
    → (q : VpnConfiguration) × (new ≡ some q) × (p.cipher ≡ q.cipher)

-- A gateway entry against the old entry that held for its cluster: the protocol stays, and the type stays
-- unless it was NodePort. A cluster that had no entry has the protocol UDP.
abbrev KeepsProtocol : Option SliceGatewayServiceType → Bool → SliceGatewayServiceType → Type 0
KeepsProtocol none participating new = participating ≡ true → new.protocol ≡ "UDP"
KeepsProtocol (some old) participating new =
    (old.protocol ≡ new.protocol)
    × ((old.service_type ≡ "NodePort") ⊎ (old.service_type ≡ new.service_type))

KeepsProvider-unchanged :
    (old new : Option WorkerSliceGatewayProvider)
    → provider_unchanged old new ≡ ok tt
    → KeepsProvider old new
unfolding provider_unchanged
KeepsProvider-unchanged none new h p q e f = cc
KeepsProvider-unchanged (some old) none h p q e f = cc
KeepsProvider-unchanged (some old) (some new) h p q e f =
    let a : old ≡ p = cc in
    let b : new ≡ q = cc in
    rw (sym a, sym b)
      (ground (
        arith,
        h,
        eq_iff old.slice_gateway_type new.slice_gateway_type,
        eq_iff old.slice_ca_type new.slice_ca_type,
      ))

KeepsCipher-unchanged :
    (old new : Option VpnConfiguration) → cipher_unchanged old new ≡ ok tt → KeepsCipher old new
unfolding cipher_unchanged
KeepsCipher-unchanged none new h p e = cc
KeepsCipher-unchanged (some old) none h p e = cc
KeepsCipher-unchanged (some old) (some new) h p e =
    let a : old ≡ p = cc in
    (new, refl, rw (sym a) (ground (arith, h, eq_iff old.cipher new.cipher)))

KeepsProtocol-unchanged :
    (old : Option SliceGatewayServiceType) (participating : Bool) (new : SliceGatewayServiceType)
    → service_type_unchanged old participating new ≡ ok tt
    → KeepsProtocol old participating new
unfolding service_type_unchanged
KeepsProtocol-unchanged none participating new h =
    λ e. ground (arith, h, e, eq_iff new.protocol "UDP")
KeepsProtocol-unchanged (some old) participating new h = ground (
  arith,
  h,
  eq_iff old.service_type "NodePort",
  eq_iff new.service_type old.service_type,
  eq_iff new.protocol old.protocol,
)

-- The fields that an update in the same mode leaves.
pub record IsFrozen (old new : SliceConfig) : Type 0 where
  pub subnet : old.spec.slice_subnet ≡ new.spec.slice_subnet
  pub slice_type : old.spec.slice_type ≡ new.spec.slice_type
  pub ipam_type : old.spec.slice_ipam_type ≡ new.spec.slice_ipam_type
  pub provider : KeepsProvider old.spec.slice_gateway_provider new.spec.slice_gateway_provider
  pub cipher : KeepsCipher old.spec.vpn_config new.spec.vpn_config
  pub protocols :
      All
        (λ (entry : SliceGatewayServiceType).
          KeepsProtocol
            (lookup entry.cluster (get_slice_gw_svc_types old))
            (contains_string old.spec.clusters entry.cluster)
            entry)
        (new_service_types new.spec.slice_gateway_provider)

prevent_update-IsFrozen :
    (slice old : SliceConfig) → prevent_update slice old ≡ ok tt → IsFrozen old slice
unfolding prevent_update
prevent_update-IsFrozen slice old h =
    let o = old.spec in
    let n = slice.spec in
    let a = (reject_if->>_iff (not (o.slice_subnet == n.slice_subnet)) _ _).0 h in
    let b = (reject_if->>_iff (not (o.slice_type == n.slice_type)) _ _).0 a.1 in
    let c =
      (>>_iff (provider_unchanged o.slice_gateway_provider n.slice_gateway_provider) _).0 b.1 in
    let d = (reject_if->>_iff (not (o.slice_ipam_type == n.slice_ipam_type)) _ _).0 c.1 in
    let e = (>>_iff (cipher_unchanged o.vpn_config n.vpn_config) _).0 d.1 in
    let f = (for_each_iff (new_service_types n.slice_gateway_provider) _).0 e.1 in
    record {
      subnet = ground (arith, a.0, eq_iff o.slice_subnet n.slice_subnet);
      slice_type = ground (arith, b.0, eq_iff o.slice_type n.slice_type);
      ipam_type = ground (arith, d.0, eq_iff o.slice_ipam_type n.slice_ipam_type);
      provider = KeepsProvider-unchanged o.slice_gateway_provider n.slice_gateway_provider c.0;
      cipher = KeepsCipher-unchanged o.vpn_config n.vpn_config e.0;
      protocols =
          All-map
            (λ (entry : SliceGatewayServiceType) k.
              KeepsProtocol-unchanged (lookup entry.cluster (get_slice_gw_svc_types old))
                (contains_string o.clusters entry.cluster) entry k)
            (new_service_types n.slice_gateway_provider) f;
    }

-- What an accepted update guarantees, by the mode of the old configuration.
pub record IsUpdate (old new : SliceConfig) : Type 0 where
  pub distinct : IsDistinct new.spec.clusters
  -- The mode changes only from no network.
  pub mode :
      (old.spec.overlay_network_deployment_mode ≡ no_network)
      ⊎ (old.spec.overlay_network_deployment_mode ≡ new.spec.overlay_network_deployment_mode)
  pub frozen :
      old.spec.overlay_network_deployment_mode ≡ new.spec.overlay_network_deployment_mode
      → IsFrozen old new
  pub max_clusters :
      has_network old.spec.overlay_network_deployment_mode ≡ true
      → (old.spec.max_clusters ≡ new.spec.max_clusters)
        × (length new.spec.clusters ≤ new.spec.max_clusters)

IsDistinct-update :
    {W : Type 0} (platform : Platform W) (w : W) (slice old : SliceConfig)
    → validate_clusters_on_update platform w slice old ≡ ok tt
    → IsDistinct slice.spec.clusters
unfolding validate_clusters_on_update
IsDistinct-update platform w slice old h =
    (check_duplicate_in_array-IsDistinct slice.spec.clusters).0
      ((reject_if->>_iff (check_duplicate_in_array slice.spec.clusters).0 _ _).0 h).0

max_clusters_kept :
    (slice old : SliceConfig)
    → prevent_max_cluster_count_update slice old ≡ ok tt
    → (old.spec.max_clusters ≡ slice.spec.max_clusters)
      × (length slice.spec.clusters ≤ slice.spec.max_clusters)
unfolding prevent_max_cluster_count_update
max_clusters_kept slice old h = ground (arith, h)

same_mode_refl : (a : NetworkType) → same_mode a a ≡ true
same_mode_refl single_network = refl
same_mode_refl multi_network = refl
same_mode_refl no_network = refl

-- The test at the start of the update.
mode_kept :
    (new old : NetworkType)
    → not (same_mode new old) && has_network old ≡ false
    → (old ≡ no_network) ⊎ (old ≡ new)
mode_kept new no_network h = inl refl
mode_kept single_network single_network h = inr refl
mode_kept multi_network multi_network h = inr refl
mode_kept multi_network single_network h = cc
mode_kept no_network single_network h = cc
mode_kept single_network multi_network h = cc
mode_kept no_network multi_network h = cc

pub network_kept :
    (new old : NetworkType)
    → (old ≡ no_network) ⊎ (old ≡ new)
    → has_network old ≡ true
    → (old ≡ new) × (has_network new ≡ true)
network_kept new old (inl e) h = let wrong = rw e at h in cc
network_kept new old (inr e) h = (e, rw (sym e) h)

pub validate_slice_config_change-IsUpdate :
    {W : Type 0} (platform : Platform W) (w : W) (slice old : SliceConfig)
    → validate_slice_config_change platform w slice old ≡ ok tt
    → IsUpdate old slice
unfolding validate_slice_config_change when validate_overlay
validate_slice_config_change-IsUpdate platform w slice old h =
    let new_mode = slice.spec.overlay_network_deployment_mode in
    let old_mode = old.spec.overlay_network_deployment_mode in
    let transitioning = not (same_mode new_mode old_mode) in
    let a = (reject_if->>_iff (transitioning && has_network old_mode) _ _).0 h in
    let b = (>>_iff (when (not transitioning) (prevent_update slice old)) _).0 a.1 in
    let c = (>>_iff (validate_clusters_on_update platform w slice old) _).0 b.1 in
    let d = (>>_iff (validate_application_namespaces platform w slice) _).0 c.1 in
    let e = (>>_iff (validate_allowed_namespaces slice) _).0 d.1 in
    let f = (>>_iff (validate_namespace_isolation_profile slice) _).0 e.1 in
    let kept = mode_kept new_mode old_mode a.0 in
    let same = λ (q : old_mode ≡ new_mode).
      subst (λ (m : NetworkType). not (not (same_mode new_mode m)) ≡ true) (sym q)
        (rw (same_mode_refl new_mode) refl) in
    record {
      distinct = IsDistinct-update platform w slice old c.0;
      mode = kept;
      frozen = λ q. prevent_update-IsFrozen slice old (rw (same q) at b.0);
      max_clusters = λ n.
          let on = network_kept new_mode old_mode kept n in
          let g = rw on.1 at f.1 in
          let subnet = (>>_iff (validate_slice_subnet platform slice) _).0 g in
          let check = when (not transitioning) (prevent_max_cluster_count_update slice old) in
          max_clusters_kept slice old (rw (same on.0) at ((>>_iff check _).0 subnet.1).0);
    }
