-- ===== src/Util/Subnets.antt =====
-- The tests of util/common.go on the text of a subnet.
use kubeslice_controller.Common.{ℕ, String, Bool, false, Option, none, some, ◌==◌, ◌&&◌, ◌||◌}
use kubeslice_controller.Go.{Outcome, ok, panic, ◌>>=◌}
use kubeslice_controller.Go.Text.{itoa}
use kubeslice_controller.Go.Net.{Cidr, v4, v6, parse_cidr, is_private, network, contains_ip, octet}

-- subnet[len(subnet)-2:], a panic for a shorter text.
last_two : String → Outcome String
last_two String.[] = panic
last_two (String.◌∷◌ c String.[]) = panic
last_two (String.◌∷◌ c (String.◌∷◌ d String.[])) = ok (String.◌∷◌ c (String.◌∷◌ d String.[]))
last_two (String.◌∷◌ c (String.◌∷◌ d (String.◌∷◌ e s))) = last_two (String.◌∷◌ d (String.◌∷◌ e s))

-- HasPrefix
unfoldable pub has_prefix : String → String → Outcome Bool
unfolding last_two
has_prefix subnet prefix = last_two subnet >>= λ last. ok (last == prefix)

-- HasLastTwoOctetsZero: the text of an IPv6 address has no third part at the dots.
octets_zero : Option Cidr → Outcome Bool
octets_zero none = ok false
octets_zero (some (v4 a p)) = ok (itoa (octet a 3) == "0" && itoa (octet a 4) == "0")
octets_zero (some (v6 a p)) = panic

module _ (parse6 : String → Option (ℕ × ℕ)) where
  -- IsPrivateSubnet
  unfoldable pub is_private_subnet : String → Bool
  is_private_subnet subnet = elim (parse_cidr parse6 subnet) [
    | none ↦ false
    | some c ↦ is_private c
  ]

  unfoldable pub has_last_two_octets_zero : String → Outcome Bool
  unfolding octets_zero
  has_last_two_octets_zero subnet = octets_zero (parse_cidr parse6 subnet)

  -- OverlapIP
  unfoldable pub overlap_ip : String → String → Bool
  overlap_ip ip1 ip2 = elim (parse_cidr parse6 ip1) [
    | none ↦ false
    | some n1 ↦ elim (parse_cidr parse6 ip2) [
      | none ↦ false
      | some n2 ↦ contains_ip (network n2) (network n1) || contains_ip (network n1) (network n2)
    ]
  ]
