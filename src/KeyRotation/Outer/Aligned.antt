-- ===== src/KeyRotation/Outer/Aligned.antt =====
-- That one update brings a rotation into line with its slice (service/vpn_key_rotation_service.go).
use kubeslice_controller.Common.{
  String, ◌≡◌, refl, true, false, List, [], ◌∷◌, ◌++◌, Option, none, some, Map, map, all, lookup,
  =?_iff, ==ₗ_refl, eq_refl, arith,
}
use kubeslice_controller.Resources.Slice.{SliceConfig}
use kubeslice_controller.Resources.Rotation.{VpnKeyRotation}
use kubeslice_controller.KeyRotation.Outer.{
  same_gateways, same_mapping, deviates, aligned, key_of_entry,
}

same_gateways_refl : (o : Option (List String)) → same_gateways o o ≡ true
same_gateways_refl none = refl
same_gateways_refl (some xs) = ==ₗ_refl xs

same_keys :
    (m : Map (List String)) (keys : List String)
    → all (λ key. same_gateways (lookup key m) (lookup key m)) keys ≡ true
same_keys m [] = refl
same_keys m (key ∷ keys) = ground (arith, same_gateways_refl (lookup key m), same_keys m keys)

same_mapping_refl : (m : Map (List String)) → same_mapping m m ≡ true
same_mapping_refl m = same_keys m (map key_of_entry m ++ map key_of_entry m)

-- After ReconcileVpnKeyRotation has written a rotation that deviated from its slice and its gateways, the
-- rotation does not deviate from them: with the same slice and gateways the next run writes it no more for
-- that reason, and goes on to the certificates.
deviates-aligned :
    (mapping : Map (List String)) (slice : SliceConfig) (rotation : VpnKeyRotation)
    → deviates mapping slice (aligned mapping slice rotation) ≡ false
unfolding deviates aligned
deviates-aligned mapping slice rotation = ground (
  arith,
  same_mapping_refl mapping,
  (=?_iff slice.spec.rotation_interval slice.spec.rotation_interval).1 refl,
  eq_refl slice.metadata.name,
  ==ₗ_refl slice.spec.clusters,
)
