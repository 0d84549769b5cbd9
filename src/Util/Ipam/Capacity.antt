-- ===== src/Util/Ipam/Capacity.antt =====
-- The prefix length that FindCIDRByMaxClusters chooses, and the power that intPow computes.
use native.Mathlib.Nat.{
  pow-zero, pow-suc, mul_assoc, mul_comm, mul-one, one-mul, add-mul, div-add-mod, mod-mod,
  mul-add-mod_self_left,
}
use kubeslice_controller.Common.{
  ℕ, zero, suc, ◌+◌, ◌*◌, ◌/◌, ◌%◌, ◌^◌, ◌≤◌, ◌<◌, ◌≡◌, refl, sym, ◌⊎◌, ◌∙◌, ap, arith, ltb,
  Bool-cases, true, false, inl, inr,
}
use kubeslice_controller.Go.Text.{◌<>◌, itoa}
use kubeslice_controller.Util.Ipam.{
  find_from, find_cidr_by_max_clusters, word, int_pow_loop, int_pow,
}

-- A prefix length of q + 17 leaves room for 2^(q + 1) clusters, and one bit less would not.
pub record IsTight (n q : ℕ) : Type 0 where
  pub room : n ≤ 2 ^ suc q
  pub tight : 2 ^ q < n

find_from-IsTight :
    (n i : ℕ)
    → 1 < n
    → n ≤ 2 ^ suc i
    → (q : ℕ) × (find_from n i ≡ "/" <> itoa (q + 17)) × (q ≤ i) × IsTight n q
unfolding find_from
find_from-IsTight n zero h k = (0, ground arith, omega arith, record { room = k; tight = h })
find_from-IsTight n (suc i) h k = elim (Bool-cases (ltb (2 ^ suc i) n)) [
  | inl over ↦ (suc i, rw over, omega arith, record { room = k; tight = ground (arith, over) })
  | inr under ↦
      let (q, e, le, t) = find_from-IsTight n i h (ground (arith, under)) in
      (q, rw under e, omega arith, t)
]

-- For 2 to 256 clusters FindCIDRByMaxClusters returns a prefix length between 17 and 24, and it is the
-- shortest with which a /16 holds a subnet for each of so many clusters.
pub find_cidr_by_max_clusters-IsTight :
    (n : ℕ)
    → 1 < n
    → n ≤ 256
    → (q : ℕ) × (find_cidr_by_max_clusters n ≡ "/" <> itoa (q + 17)) × (q ≤ 7) × IsTight n q
unfolding find_cidr_by_max_clusters
find_cidr_by_max_clusters-IsTight n h k = find_from-IsTight n 7 h k

square-pow : (a m : ℕ) → (a * a) ^ m ≡ a ^ (m + m)
square-pow a zero = simp pow-zero
square-pow a (suc m) =
    let e : suc m + suc m ≡ suc (suc (m + m)) = omega arith in
    rw (e, pow-suc, pow-suc, pow-suc, square-pow a m, mul_assoc (a ^ (m + m)) a a)

-- One round of the loop: an even exponent squares the base, an odd one leaves a factor over.
pow-halve :
    (a b : ℕ)
    → ((b % 2 ≡ 0) × (a ^ b ≡ (a * a) ^ (b / 2))) ⊎ ((b % 2 ≡ 1) × (a ^ b ≡ a * (a * a) ^ (b / 2)))
pow-halve a b = elim (Bool-cases (ltb 0 (b % 2))) [
  | inl odd ↦
      let e : b ≡ suc (b / 2 + b / 2) = ground (arith, odd) in
      inr (
        ground (arith, odd),
        ap (λ (n : ℕ). a ^ n) e ∙ rw (pow-suc, square-pow a (b / 2)) (mul_comm _ a),
      )
  | inr even ↦
      let e : b ≡ b / 2 + b / 2 = ground (arith, even) in
      inl (ground (arith, even), ap (λ (n : ℕ). a ^ n) e ∙ sym (square-pow a (b / 2)))
]

module _ (m : ℕ) where
  mod_left : (x y : ℕ) → x % m * y % m ≡ x * y % m
  mod_left x y =
      let e : m * (x / m * y) + x % m * y ≡ x * y =
        ap (λ (n : ℕ). n + x % m * y) (sym (mul_assoc m (x / m) y))
        ∙ sym (add-mul (m * (x / m)) (x % m) y)
        ∙ ap (λ (n : ℕ). n * y) (div-add-mod x m) in
      sym (mul-add-mod_self_left m (x / m * y) (x % m * y)) ∙ ap (λ (n : ℕ). n % m) e

  mod_right : (x y : ℕ) → x * (y % m) % m ≡ x * y % m
  mod_right x y =
      ap (λ (n : ℕ). n % m) (mul_comm x (y % m))
      ∙ mod_left y x
      ∙ ap (λ (n : ℕ). n % m) (mul_comm y x)

  pow-mod : (x k : ℕ) → (x % m) ^ k % m ≡ x ^ k % m
  pow-mod x zero = simp pow-zero
  pow-mod x (suc k) =
      rw (pow-suc, pow-suc)
        (mod_right ((x % m) ^ k) x
          ∙ sym (mod_left ((x % m) ^ k) x)
          ∙ ap (λ (n : ℕ). n * x % m) (pow-mod x k)
          ∙ mod_left (x ^ k) x)

  -- A round on a squared base that has wrapped.
  wrapped_base : (p x k : ℕ) → p * (x % m) ^ k % m ≡ p * x ^ k % m
  wrapped_base p x k =
      sym (mod_right p ((x % m) ^ k))
      ∙ ap (λ (n : ℕ). p * n % m) (pow-mod x k)
      ∙ mod_right p (x ^ k)

-- The loop of intPow with a product so far that fits.
int_pow_loop_lem : (f a b p : ℕ) → b ≤ f → p ≡ word p → int_pow_loop f a b p ≡ word (p * a ^ b)
unfolding int_pow_loop
int_pow_loop_lem zero a b p h fits = let e : b ≡ 0 = omega arith in rw (e, pow-zero, mul-one) fits
int_pow_loop_lem (suc f) a zero p h fits = rw (pow-zero, mul-one) fits
int_pow_loop_lem (suc f) a (suc b) p h fits =
    let k = suc b / 2 in
    let fewer : k ≤ f = omega arith in
    let runs : ltb 0 (suc b) ≡ true = ground arith in
    elim (pow-halve a (suc b)) [
      | inl (even, e) ↦
          let test : ltb 0 (suc b % 2) ≡ false = ground (arith, even) in
          rw (runs, test, e)
            (int_pow_loop_lem f (word (a * a)) k p fewer fits ∙ wrapped_base (2 ^ 64) p (a * a) k)
      | inr (odd, e) ↦
          let test : ltb 0 (suc b % 2) ≡ true = ground (arith, odd) in
          rw (runs, test, e)
            (int_pow_loop_lem f (word (a * a)) k (word (p * a)) fewer
                (sym (mod-mod (p * a) (2 ^ 64)))
              ∙ wrapped_base (2 ^ 64) (word (p * a)) (a * a) k
              ∙ mod_left (2 ^ 64) (p * a) ((a * a) ^ k)
              ∙ ap word (mul_assoc p a ((a * a) ^ k)))
    ]

-- For every base and exponent that are not negative, intPow returns the power as far as it fits into the 64
-- bits of an int: the bits of its result are those of the power modulo 2^64, however often the squares and
-- products of the loop wrap.
pub int_pow_lem : (a b : ℕ) → int_pow a b ≡ a ^ b % 2 ^ 64
unfolding int_pow
int_pow_lem a b = int_pow_loop_lem b a b 1 (omega arith) refl ∙ ap word (one-mul (a ^ b))
