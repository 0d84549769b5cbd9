-- ===== src/WorkerConfigs/Octets/Unused.antt =====
-- The indexes that no worker slice uses: enough of them, each once.
use kubeslice_controller.Common.{
  ℕ, zero, suc, ◌+◌, ◌≤◌, ◌<◌, true, false, List, [], ◌∷◌, some, ◌≡◌, refl, ap, arith, Bool-cases,
  inl, inr, get_elem?, length, ◌⊎◌,
}
use kubeslice_controller.WorkerConfigs.Octets.{unused_from, is_used}

module _ (used : List ℕ) where
  no_rounds : {A : Type 0} (start i v : ℕ) → get_elem? (unused_from used zero start) i ≡ some v → A
  unfolding unused_from
  no_rounds start i v h = absurd (cc h)

  -- The list from `start` on: `start` is left out if it is used, and else it is the first.
  unused_from-suc :
      (rounds start : ℕ)
      → ((is_used used start ≡ true)
          × (unused_from used (suc rounds) start ≡ unused_from used rounds (suc start)))
        ⊎ ((is_used used start ≡ false)
            × (unused_from used (suc rounds) start ≡ start ∷ unused_from used rounds (suc start)))
  unfolding unused_from
  unused_from-suc rounds start = elim (Bool-cases (is_used used start)) [
    | inl e ↦ inl (e, rw e refl)
    | inr e ↦ inr (e, rw e refl)
  ]

  -- Each lies in the range, and is not used.
  pub unused_from_range :
      (rounds start i v : ℕ)
      → get_elem? (unused_from used rounds start) i ≡ some v
      → (start ≤ v) × (v < start + rounds) × (is_used used v ≡ false)
  unused_from_range zero start i v h = no_rounds start i v h
  unused_from_range (suc rounds) start i v h = elim (unused_from-suc rounds start) [
    | inl (e, same) ↦
        let (lo, hi, free) = unused_from_range rounds (suc start) i v (rw same at h) in
        (omega arith, omega arith, free)
    | inr (e, more) ↦ at_index i e (λ j. unused_from_range rounds (suc start) j v) (rw more at h)
  ]
    where
      at_index :
          (i : ℕ)
          → is_used used start ≡ false
          → ((j : ℕ)
              → get_elem? (unused_from used rounds (suc start)) j ≡ some v
              → (suc start ≤ v) × (v < suc start + rounds) × (is_used used v ≡ false))
          → get_elem? (start ∷ unused_from used rounds (suc start)) i ≡ some v
          → (start ≤ v) × (v < start + suc rounds) × (is_used used v ≡ false)
      at_index zero e rest k = ground (arith, e, k)
      at_index (suc i) e rest k = let (lo, hi, free) = rest i k in (omega arith, omega arith, free)

  -- No index stands twice.
  pub unused_from_distinct :
      (rounds start i j v : ℕ)
      → get_elem? (unused_from used rounds start) i ≡ some v
      → get_elem? (unused_from used rounds start) j ≡ some v
      → i ≡ j
  unused_from_distinct zero start i j v h k = no_rounds start i v h
  unused_from_distinct (suc rounds) start i j v h k = elim (unused_from-suc rounds start) [
    | inl (e, same) ↦ unused_from_distinct rounds (suc start) i j v (rw same at h) (rw same at k)
    | inr (e, more) ↦
        at_index i j (λ a b. unused_from_distinct rounds (suc start) a b v) (rw more at h)
          (rw more at k)
  ]
    where
      at_index :
          (i j : ℕ)
          → ((a b : ℕ)
              → get_elem? (unused_from used rounds (suc start)) a ≡ some v
              → get_elem? (unused_from used rounds (suc start)) b ≡ some v
              → a ≡ b)
          → get_elem? (start ∷ unused_from used rounds (suc start)) i ≡ some v
          → get_elem? (start ∷ unused_from used rounds (suc start)) j ≡ some v
          → i ≡ j
      at_index zero zero rest h k = refl
      at_index zero (suc j) rest h k = ground (arith, h, unused_from_range rounds (suc start) j v k)
      at_index (suc i) zero rest h k = ground (arith, k, unused_from_range rounds (suc start) i v h)
      at_index (suc i) (suc j) rest h k = ap suc (rest i j h k)

-- One more used index takes one unused index away at most, and none if it lies below the range.
unused_from-cons :
    (u : ℕ) (used : List ℕ) (rounds start : ℕ)
    → (length (unused_from used rounds start) ≤ suc (length (unused_from (u ∷ used) rounds start)))
      × (u < start
          → length (unused_from used rounds start) ≤ length (unused_from (u ∷ used) rounds start))
unfolding unused_from
unused_from-cons u used zero start = (omega arith, λ h. omega arith)
unused_from-cons u used (suc rounds) start =
    let (ih, below) = unused_from-cons u used rounds (suc start) in
    (ground (arith, ih, below), λ h. ground (arith, h, ih, below))

all_unused : (rounds start : ℕ) → length (unused_from [] rounds start) ≡ rounds
unfolding unused_from
all_unused zero start = refl
all_unused (suc rounds) start = ap suc (all_unused rounds (suc start))

-- There are as many unused indexes as there are indexes, less one for each used.
pub length-unused_from :
    (used : List ℕ) (rounds start : ℕ)
    → rounds ≤ length (unused_from used rounds start) + length used
length-unused_from [] rounds start = omega (arith, all_unused rounds start)
length-unused_from (u ∷ used) rounds start =
    omega (arith, length-unused_from used rounds start, (unused_from-cons u used rounds start).0)
