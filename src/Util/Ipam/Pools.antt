-- ===== src/Util/Ipam/Pools.antt =====
-- The subnets that GetClusterPrefixPool hands to the clusters of a slice.
use kubeslice_controller.Common.{
  ℕ, zero, suc, ◌+◌, ◌-◌, ◌*◌, ◌^◌, ◌≤◌, ◌<◌, ◌≡◌, ◌≢◌, ◌⊎◌, refl, String, [], ◌∷◌, arith, ltb,
  Bool-cases, inl, inr,
}
use kubeslice_controller.Go.{ok}
use kubeslice_controller.Go.Text.{◌<>◌, itoa, atoi, split, remove_all}
use kubeslice_controller.Common.Int.{pos}
use kubeslice_controller.Util.Ipam.{
  subnet_octet_diff, get_cluster_prefix_pool, find_cidr_by_max_clusters,
}
use kubeslice_controller.Util.Ipam.Capacity.{find_cidr_by_max_clusters-IsTight}

-- The text of the network a.b.third.0 with a prefix of `bits`, between 17 and 24. Its addresses are those
-- whose third octet lies in the 2^(24 - bits) values from `third` on.
abbrev pub network_text : String → String → ℕ → ℕ → String
network_text a b third bits = a <> "." <> b <> "." <> itoa third <> "." <> "0" <> "/" <> itoa bits

-- What the prefix lengths in use, 17 to 24, come to: the third octet controls, in steps of 2^(7 - q).
pub octet_diff_in_use :
    (q : ℕ)
    → q ≤ 7
    → (atoi (remove_all ("/" <> itoa (q + 17)) "/") ≡ q + 17)
      × (subnet_octet_diff (q + 17) ≡ (pos 3, pos (2 ^ (7 - q))))
      × (2 ^ suc q * 2 ^ (7 - q) ≡ 256)
unfolding itoa remove_all atoi subnet_octet_diff
octet_diff_in_use zero h = (refl, refl, refl)
octet_diff_in_use (suc zero) h = (refl, refl, refl)
octet_diff_in_use (suc (suc zero)) h = (refl, refl, refl)
octet_diff_in_use (suc (suc (suc zero))) h = (refl, refl, refl)
octet_diff_in_use (suc (suc (suc (suc zero)))) h = (refl, refl, refl)
octet_diff_in_use (suc (suc (suc (suc (suc zero))))) h = (refl, refl, refl)
octet_diff_in_use (suc (suc (suc (suc (suc (suc zero)))))) h = (refl, refl, refl)
octet_diff_in_use (suc (suc (suc (suc (suc (suc (suc zero))))))) h = (refl, refl, refl)
octet_diff_in_use (suc (suc (suc (suc (suc (suc (suc (suc q)))))))) h = absurd (omega arith)

-- For a subnet of four octets and a prefix length that FindCIDRByMaxClusters returns, the pool of octet k
-- is the network whose third octet is k * 2^(7 - q).
pub get_cluster_prefix_pool_lem :
    (subnet a b c d : String) (q k : ℕ)
    → q ≤ 7
    → split subnet "." ≡ a ∷ b ∷ c ∷ d ∷ []
    → get_cluster_prefix_pool subnet k ("/" <> itoa (q + 17))
      ≡ ok (network_text a b (k * 2 ^ (7 - q)) (q + 17))
get_cluster_prefix_pool_lem subnet a b c d q k h e =
    let (text, diff, room) = octet_diff_in_use q h in
    unfold get_cluster_prefix_pool in rw (text, diff, e) refl

-- The third octets from `s` on and those from `t` on, `size` of each, are no more than 255 and apart.
pub record IsApart (s t size : ℕ) : Type 0 where
  pub left_fits : s + size ≤ 256
  pub right_fits : t + size ≤ 256
  pub apart : (s + size ≤ t) ⊎ (t + size ≤ s)

steps-IsApart :
    (rooms size k j : ℕ)
    → rooms * size ≡ 256
    → k < rooms
    → j < rooms
    → k < j
    → IsApart (k * size) (j * size) size
steps-IsApart rooms size k j e h i lt =
    let below : (suc k) * size ≤ j * size = grind arith in
    let left : (suc k) * size ≤ rooms * size = grind arith in
    let right : (suc j) * size ≤ rooms * size = grind arith in
    record { left_fits = omega arith; right_fits = omega arith; apart = inl (omega arith) }

IsApart-sym : (s t size : ℕ) → IsApart s t size → IsApart t s size
IsApart-sym s t size h = record {
  left_fits = h.right_fits;
  right_fits = h.left_fits;
  apart = omega (arith, h.apart);
}

steps_IsApart :
    (rooms size k j : ℕ)
    → rooms * size ≡ 256
    → k < rooms
    → j < rooms
    → k ≢ j
    → IsApart (k * size) (j * size) size
steps_IsApart rooms size k j e h i ne = elim (Bool-cases (ltb k j)) [
  | inl lt ↦ steps-IsApart rooms size k j e h i (ground (arith, lt))
  | inr ge ↦
      IsApart-sym (j * size) (k * size) size
        (steps-IsApart rooms size j k e i h (ground (arith, ge)))
]

-- Two clusters with different octets below the slice's maximum, at least 2 and at most 256, get two
-- networks of one prefix length that share no address and stay inside the slice's /16, if the subnet's
-- text has four parts.
pub pools-IsApart :
    (subnet a b c d : String) (n k j : ℕ)
    → 1 < n
    → n ≤ 256
    → k < n
    → j < n
    → k ≢ j
    → split subnet "." ≡ a ∷ b ∷ c ∷ d ∷ []
    → (s t bits : ℕ) × (get_cluster_prefix_pool subnet k (find_cidr_by_max_clusters n)
        ≡ ok (network_text a b s bits))
      × (get_cluster_prefix_pool subnet j (find_cidr_by_max_clusters n)
          ≡ ok (network_text a b t bits))
      × IsApart s t (2 ^ (24 - bits))
pools-IsApart subnet a b c d n k j lo hi hk hj ne e =
    let (q, cidr, le, fit) = find_cidr_by_max_clusters-IsTight n lo hi in
    let (text, diff, room) = octet_diff_in_use q le in
    let size : 24 - (q + 17) ≡ 7 - q = omega arith in
    (
      k * 2 ^ (7 - q),
      j * 2 ^ (7 - q),
      q + 17,
      rw cidr (get_cluster_prefix_pool_lem subnet a b c d q k le e),
      rw cidr (get_cluster_prefix_pool_lem subnet a b c d q j le e),
      rw size (
          steps_IsApart (2 ^ suc q) (2 ^ (7 - q)) k j room (omega (arith, fit.room))
            (omega (arith, fit.room)) ne),
    )
