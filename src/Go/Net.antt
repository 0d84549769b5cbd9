-- ===== src/Go/Net.antt =====
-- The part of Go's `net` that the program uses. An address is the number of its bits, 32 for IPv4 and
-- 128 for IPv6.
use Prim.Native.Char.{code}
use Prim.Native.String.{count}
use kubeslice_controller.Common.{
  ℕ, ◌+◌, ◌-◌, ◌*◌, ◌/◌, ◌%◌, ◌^◌, ◌≡◌, refl, String, Bool, true, false, ◌&&◌, ◌||◌, not, List, [],
  ◌∷◌, Option, none, some, ◌==◌, ◌=?◌, ltb, leb, if◌then◌else◌,
}
use kubeslice_controller.Go.Text.{split, atoi}

-- What net.ParseCIDR returns: the address with all its bits, and the prefix length.
pub data Cidr : Type 0 where
  v4 : (address prefix : ℕ) → Cidr
  v6 : (address prefix : ℕ) → Cidr

all_digits : String → Bool
all_digits String.[] = true
all_digits (String.◌∷◌ c s) = leb b'0' (code c) && leb (code c) b'9' && all_digits s

starts_with_zero : String → Bool
starts_with_zero String.[] = false
starts_with_zero (String.◌∷◌ c s) = code c =? b'0'

-- An octet: digits only, no leading zero, at most 255.
parse_octet : String → Option ℕ
unfolding all_digits starts_with_zero atoi
parse_octet s =
    if s == "" || not (all_digits s) || (ltb 1 (count s) && starts_with_zero s) || ltb 255 (atoi s)
    then none
    else some (atoi s)

parse_octets : List String → ℕ → Option ℕ
parse_octets [] address = some address
parse_octets (part ∷ parts) address = elim (parse_octet part) [
  | none ↦ none
  | some octet ↦ parse_octets parts (address * 256 + octet)
]

four_parts : List String → Option ℕ
unfolding parse_octets parse_octet
four_parts (a ∷ b ∷ c ∷ d ∷ []) = parse_octets (a ∷ b ∷ c ∷ d ∷ []) 0
four_parts _ = none

prefix_of : String → Option ℕ
unfolding all_digits atoi
prefix_of s = if s == "" || not (all_digits s) || ltb 32 (atoi s) then none else some (atoi s)

address_and_prefix : List String → Option (ℕ × ℕ)
unfolding four_parts prefix_of
address_and_prefix (address ∷ mask ∷ []) = elim (four_parts (split address ".")) [
  | none ↦ none
  | some a ↦ elim (prefix_of mask) [ none ↦ none | some p ↦ some (a, p) ]
]
address_and_prefix _ = none

-- net.ParseCIDR; `parse6` is its answer to a text that is no IPv4 network.
unfoldable pub parse_cidr : (String → Option (ℕ × ℕ)) → String → Option Cidr
unfolding address_and_prefix split
parse_cidr parse6 s = elim (address_and_prefix (split s "/")) [
  | some (a, p) ↦ some (v4 a p)
  | none ↦ elim (parse6 s) [ none ↦ none | some (a, p) ↦ some (v6 a p) ]
]

-- The octet of an IPv4 address, from 1 for the first.
abbrev pub octet : ℕ → ℕ → ℕ
octet address i = address / 256 ^ (4 - i) % 256

-- IP.IsPrivate: 10/8, 172.16/12, 192.168/16, and fc00::/7 for IPv6
unfoldable pub is_private : Cidr → Bool
is_private (v4 a p) =
    octet a 1 =? 10
    || (octet a 1 =? 172 && octet a 2 / 16 =? 1)
    || (octet a 1 =? 192 && octet a 2 =? 168)
is_private (v6 a p) = a / 2 ^ 121 =? 126

-- The network of what net.ParseCIDR returns: the address with the bits after the prefix cleared.
abbrev cleared : (width address prefix : ℕ) → ℕ
cleared width address prefix = address / 2 ^ (width - prefix) * 2 ^ (width - prefix)

unfoldable pub network : Cidr → Cidr
network (v4 a p) = v4 (cleared 32 a p) p
network (v6 a p) = v6 (cleared 128 a p) p

-- Whether an address lies in a network: the bits of the mask agree.
abbrev in_network : (width net prefix address : ℕ) → Bool
in_network width net prefix address = address / 2 ^ (width - prefix) =? net / 2 ^ (width - prefix)

-- IPNet.Contains of a network at the address of another; the lengths must agree.
unfoldable pub contains_ip : Cidr → Cidr → Bool
contains_ip (v4 a p) (v4 b q) = in_network 32 a p b
contains_ip (v6 a p) (v6 b q) = in_network 128 a p b
contains_ip _ _ = false

parse_slash16 : parse_cidr (λ s. none) "10.1.0.0/16" ≡ some (v4 167837696 16)
unfolding parse_cidr
parse_slash16 = refl
