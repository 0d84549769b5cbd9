-- ===== src/Util/Ipam.antt =====
-- The address arithmetic of util/common.go: the prefix length for a number of clusters, and the subnet
-- of the cluster with a given octet.
pub mod Capacity
pub mod Pools
use kubeslice_controller.Common.{
  ℕ, zero, suc, ◌+◌, ◌-◌, ◌*◌, ◌/◌, ◌%◌, ◌^◌, ◌≡◌, refl, String, List, [], ◌∷◌, ltb, leb, ◌&&◌,
  if◌then◌else◌,
}
use kubeslice_controller.Common.Int.{ℤ, pos, negsuc, sub_ℕ}
use kubeslice_controller.Go.{Outcome, ok, panic, ◌>>=◌}
use kubeslice_controller.Go.Text.{◌<>◌, itoa, atoi, split, join, remove_all}

-- The loop of FindCIDRByMaxClusters, from `i` down to 0; powers of two below 256 are exact in float64.
find_from : ℕ → ℕ → String
find_from max_cluster zero = if ltb 1 max_cluster then "/" <> itoa 17 else ""
find_from max_cluster (suc i) =
    let rest = find_from max_cluster i in
    if ltb (2 ^ suc i) max_cluster then "/" <> itoa (suc i + 17) else rest

unfoldable pub find_cidr_by_max_clusters : ℕ → String
unfolding find_from itoa
find_cidr_by_max_clusters max_cluster = find_from max_cluster 7

-- A product of 64-bit ints wraps; its bits, as a number without a sign.
abbrev pub word : ℕ → ℕ
word n = n % 2 ^ 64

-- The loop of intPow, on the bits of the ints. `b >>= 1` halves, so `b` rounds are enough.
pub int_pow_loop : ℕ → ℕ → ℕ → ℕ → ℕ
int_pow_loop zero a b p = p
int_pow_loop (suc f) a b p =
    let rest = int_pow_loop f (word (a * a)) (b / 2) (if ltb 0 (b % 2) then word (p * a) else p) in
    if ltb 0 b then rest else p

unfoldable pub int_pow : ℕ → ℕ → ℕ
unfolding int_pow_loop
int_pow a b = int_pow_loop b a b 1

-- The controlling octet and its step; below a prefix length of 8 the octet is negative. The powers are at most
-- 2^31, which is the value of the int as well as its bits.
unfoldable pub subnet_octet_diff : ℕ → ℤ × ℤ
unfolding int_pow
subnet_octet_diff cidr =
    if leb cidr 24 && ltb 0 cidr
    then (sub_ℕ 4 (32 / cidr), pos (int_pow 2 (32 - cidr) / (256 * (32 / cidr))))
    else if ltb 24 cidr && leb cidr 32
    then (pos 4, pos (int_pow 2 (32 - cidr)))
    else (negsuc 0, negsuc 0)

-- `xs[i] = v`, a panic out of range
set_elem {ℓ} : {A : Type ℓ} → List A → ℕ → A → Outcome (List A)
set_elem [] i v = panic
set_elem (x ∷ xs) zero v = ok (v ∷ xs)
set_elem (x ∷ xs) (suc i) v = set_elem xs i v >>= λ rest. ok (x ∷ rest)

-- `octetList[3] += suffix`
append_elem : List String → ℕ → String → Outcome (List String)
append_elem [] i suffix = panic
append_elem (x ∷ xs) zero suffix = ok ((x <> suffix) ∷ xs)
append_elem (x ∷ xs) (suc i) suffix = append_elem xs i suffix >>= λ rest. ok (x ∷ rest)

-- `for i := start; i <= 3; i++ { octetList[i] = "0" }`, with `rounds` rounds left.
zero_octets : ℕ → ℕ → List String → Outcome (List String)
zero_octets zero start octets = ok octets
zero_octets (suc rounds) start octets =
    set_elem octets start "0" >>= λ next. zero_octets rounds (suc start) next

-- The rest of GetClusterPrefixPool, once the octet that controls the subnet is known. An octet below 1
-- makes `octetList[controlOctet-1]` panic.
fill_octets : ℤ × ℤ → ℕ → ℕ → List String → Outcome String
fill_octets (pos (suc index), pos diff) ipam cidr octets = do
  controlled ← set_elem octets index (itoa (ipam * diff))
  zeroed ← zero_octets (3 - index) (suc index) controlled
  masked ← append_elem zeroed 3 ("/" <> itoa cidr)
  ok (join masked ".")
fill_octets _ ipam cidr octets = panic

unfoldable pub get_cluster_prefix_pool : String → ℕ → String → Outcome String
unfolding fill_octets set_elem zero_octets append_elem subnet_octet_diff remove_all atoi
get_cluster_prefix_pool slice_subnet ipam_int subnet_cidr =
    let cidr = atoi (remove_all subnet_cidr "/") in
    fill_octets (subnet_octet_diff cidr) ipam_int cidr (split slice_subnet ".")
