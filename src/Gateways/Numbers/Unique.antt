-- ===== src/Gateways/Numbers/Unique.antt =====
-- Which pairs of clusters get gateway numbers of their own.
use kubeslice_controller.Common.{
  ℕ, zero, suc, ◌+◌, ◌*◌, ◌≤◌, ◌<◌, ◌≡◌, refl, ap, arith, Bool-cases, inl, inr, ltb,
}
use kubeslice_controller.Gateways.Numbers.{calculate_gateway_number}

-- The order of the two clusters does not matter.
pub calculate_gateway_number_comm :
    (a b : ℕ) → calculate_gateway_number a b ≡ calculate_gateway_number b a
unfolding calculate_gateway_number
calculate_gateway_number_comm a b = ground arith

-- 0 + 1 + … + n
triangle : ℕ → ℕ
triangle zero = 0
triangle (suc n) = suc n + triangle n

double-triangle : (n : ℕ) → triangle n + triangle n ≡ suc n * n
unfolding triangle
double-triangle zero = omega arith
double-triangle (suc n) = omega (arith, double-triangle n)

-- The number of the pair of a smaller and a larger octet, the larger one at least 2.
number_of_pair :
    (a n : ℕ) → a < suc (suc n) → calculate_gateway_number a (suc (suc n)) ≡ triangle n + a
unfolding calculate_gateway_number
number_of_pair a n h = ground (arith, double-triangle n)

triangle-lt : (n k : ℕ) → n < k → triangle n + suc n ≤ triangle k
unfolding triangle
triangle-lt n zero h = elim h [ ]
triangle-lt n (suc k) h = elim (Bool-cases (ltb n k)) [
  | inl lt ↦ omega (arith, triangle-lt n k (ground (arith, lt)))
  | inr ge ↦ let e : n ≡ k = ground (arith, ge) in rw e (omega arith)
]

triangle_unique :
    (a n c k : ℕ)
    → 0 < a
    → a ≤ suc n
    → 0 < c
    → c ≤ suc k
    → triangle n + a ≡ triangle k + c
    → (n ≡ k) × (a ≡ c)
triangle_unique a n c k ha hn hc hk e = elim (Bool-cases (ltb n k)) [
  | inl lt ↦ absurd (omega (arith, triangle-lt n k (ground (arith, lt))))
  | inr ge ↦ elim (Bool-cases (ltb k n)) [
    | inl gt ↦ absurd (omega (arith, triangle-lt k n (ground (arith, gt))))
    | inr le ↦
        let same : n ≡ k = ground (arith, ge, le) in
        (same, let f : triangle n ≡ triangle k = ap triangle same in omega (arith, f))
  ]
]

-- Of pairs of different octets that are all at least 1, no two get the same gateway number.
pub calculate_gateway_number_unique :
    (a b c d : ℕ)
    → 0 < a
    → a < b
    → 0 < c
    → c < d
    → calculate_gateway_number a b ≡ calculate_gateway_number c d
    → (a ≡ c) × (b ≡ d)
calculate_gateway_number_unique a zero c d ha hb hc hd e = elim hb [ ]
calculate_gateway_number_unique a (suc zero) c d ha hb hc hd e = absurd (omega arith)
calculate_gateway_number_unique a (suc (suc n)) c zero ha hb hc hd e = elim hd [ ]
calculate_gateway_number_unique a (suc (suc n)) c (suc zero) ha hb hc hd e = absurd (omega arith)
calculate_gateway_number_unique a (suc (suc n)) c (suc (suc k)) ha hb hc hd e =
    let (same, equal) =
      triangle_unique a n c k ha (omega arith) hc (omega arith)
        (omega (arith, e, number_of_pair a n hb, number_of_pair c k hd)) in
    (equal, omega (arith, same))

-- The octet 0 and any octet m that is at least 2 get the gateway number of the octets m - 2 and m - 1.
calculate_gateway_number-octet_zero :
    (m : ℕ) → calculate_gateway_number 0 (suc (suc m)) ≡ calculate_gateway_number m (suc m)
calculate_gateway_number-octet_zero zero = unfold calculate_gateway_number in refl
calculate_gateway_number-octet_zero (suc k) =
    let step : triangle (suc k) ≡ suc k + triangle k = unfold triangle in refl in
    omega
      (arith, step, number_of_pair 0 (suc k) (omega arith), number_of_pair (suc k) k (omega arith))
