-- ===== src/WorkerConfigs/Octets/Filling.antt =====
-- The last loop of ComputeClusterMap: clusters that have no octet take the unused indexes in turn.
use kubeslice_controller.Common.{
  ℕ, suc, ◌≤◌, String, true, false, List, [], ◌∷◌, some, Map, lookup, insert, lookup-insert, ◌≡◌,
  ◌≢◌, ◌⊎◌, refl, subst, ◌+◌, eq_refl, get_elem?-lt_length, length, All, if◌then◌else◌, ◌==◌,
  eq_iff, arith, Bool-cases, Option-cases, inl, inr, get_elem?,
}
use kubeslice_controller.Go.{ok, ok-injective}
use kubeslice_controller.WorkerConfigs.Octets.{fill, is_unassigned}

-- No octet is two clusters' octet.
pub record IsInjective (m : Map ℕ) : Type 0 where
  pub apart : (c d : String) (i : ℕ) → lookup c m ≡ some i → lookup d m ≡ some i → c ≡ d

abbrev pub HasOctet : Map ℕ → String → Type 0
HasOctet m c = (i : ℕ) × (lookup c m ≡ some i)

-- The number of clusters that the loop has to give an octet.
abbrev pub missing : Map String → List String → ℕ
missing temp [] = 0
missing temp (name ∷ names) =
    if is_unassigned temp name then suc (missing temp names) else missing temp names

module _ (temp : Map String) (unused : List ℕ) where
  -- A round that succeeds keeps the map, or inserts the next unused index.
  fill-cons :
      (current : ℕ) (name : String) (names : List String) (m m' : Map ℕ)
      → fill temp unused current (name ∷ names) m ≡ ok m'
      → ((is_unassigned temp name ≡ false) × (fill temp unused current names m ≡ ok m'))
        ⊎ ((index : ℕ) × (is_unassigned temp name ≡ true)
            × (get_elem? unused current ≡ some index)
            × (fill temp unused (suc current) names (insert name index m) ≡ ok m'))
  unfolding fill
  fill-cons current name names m m' h = elim (Bool-cases (is_unassigned temp name)) [
    | inr old ↦ inl (old, rw old at h)
    | inl new ↦ elim (Option-cases (get_elem? unused current)) [
      | inl out ↦ absurd (cc (rw (new, out) at h))
      | inr (index, e) ↦ inr (index, new, e, rw (new, e) at h)
    ]
  ]

  module _ (P : ℕ → Map ℕ → Type 0)
      (step : (current : ℕ) (name : String) (index : ℕ) (m : Map ℕ)
        → is_unassigned temp name ≡ true
        → get_elem? unused current ≡ some index
        → P current m
        → P (suc current) (insert name index m)) where
    -- What each insertion keeps holds of the result.
    fill_induction :
        (current : ℕ) (names : List String) (m m' : Map ℕ)
        → fill temp unused current names m ≡ ok m'
        → P current m
        → (last : ℕ) × P last m'
    unfolding fill
    fill_induction current [] m m' h p = (current, subst (P current) (ok-injective h) p)
    fill_induction current (name ∷ names) m m' h p = elim (fill-cons current name names m m' h) [
      | inl (old, rest) ↦ fill_induction current names m m' rest p
      | inr (index, new, e, rest) ↦
          fill_induction (suc current) names (insert name index m) m' rest
            (step current name index m new e p)
    ]

  -- The unused indexes that are still to be given are nobody's octet.
  record IsAhead (current : ℕ) (m : Map ℕ) : Type 0 where
    injective : IsInjective m
    ahead : (c : String) (i j : ℕ) → lookup c m ≡ some i → current ≤ j → get_elem? unused j ≢ some i

  module _
      (distinct : (i j v : ℕ)
        → get_elem? unused i ≡ some v
        → get_elem? unused j ≡ some v
        → i ≡ j) where
    step-IsAhead :
        (current : ℕ) (name : String) (index : ℕ) (m : Map ℕ)
        → is_unassigned temp name ≡ true
        → get_elem? unused current ≡ some index
        → IsAhead current m
        → IsAhead (suc current) (insert name index m)
    step-IsAhead current name index m new e a = record {
      injective = record {
        apart = λ c d i h k. ground (
          arith,
          h,
          k,
          e,
          a.injective.apart c d i,
          a.ahead c i current,
          a.ahead d i current,
          eq_iff name c,
          eq_iff name d,
          lookup-insert name c index m,
          lookup-insert name d index m,
        );
      };
      ahead = λ c i j h le k.
          ground
            (arith, h, le, k, e, a.ahead c i j, distinct current j i, lookup-insert name c index m);
    }

    pub fill-IsInjective :
        (names : List String) (m m' : Map ℕ)
        → fill temp unused 0 names m ≡ ok m'
        → IsInjective m
        → ((c : String) (i j : ℕ) → lookup c m ≡ some i → get_elem? unused j ≢ some i)
        → IsInjective m'
    fill-IsInjective names m m' h inj free =
        let start : IsAhead 0 m = record { injective = inj; ahead = λ c i j e le. free c i j e } in
        (fill_induction IsAhead step-IsAhead 0 names m m' h start).1.injective

  -- A cluster that has an octet keeps it.
  pub lookup-fill :
      (current : ℕ) (names : List String) (m m' : Map ℕ) (c : String)
      → fill temp unused current names m ≡ ok m'
      → is_unassigned temp c ≡ false
      → lookup c m' ≡ lookup c m
  lookup-fill current names m m' c h old =
      (fill_induction (λ _ n. lookup c n ≡ lookup c m)
        (λ cur name index n new e p.
          ground (arith, p, new, old, eq_iff name c, lookup-insert name c index n))
        current names m m' h refl).1

  -- An octet of the result is one of the map before, or an unused index.
  pub fill_from :
      (current : ℕ) (names : List String) (m m' : Map ℕ) (c : String) (i : ℕ)
      → fill temp unused current names m ≡ ok m'
      → lookup c m' ≡ some i
      → (lookup c m ≡ some i) ⊎ ((j : ℕ) × (get_elem? unused j ≡ some i))
  fill_from current names m m' c i h =
      (fill_induction
        (λ _ n.
          lookup c n ≡ some i → (lookup c m ≡ some i) ⊎ ((j : ℕ) × (get_elem? unused j ≡ some i)))
        (λ cur name index n new e p k. elim (Bool-cases (name == c)) [
          | inl same ↦ inr (cur, ground (arith, e, k, same, lookup-insert name c index n))
          | inr other ↦ p (ground (arith, k, other, lookup-insert name c index n))
        ])
        current names m m' h (λ k. inl k)).1

  HasOctet-insert :
      (name c : String) (index : ℕ) (m : Map ℕ) → HasOctet m c → HasOctet (insert name index m) c
  HasOctet-insert name c index m (i, e) = elim (Bool-cases (name == c)) [
    | inl same ↦ (index, rw (lookup-insert name c index m, same))
    | inr other ↦ (i, rw (lookup-insert name c index m, other) e)
  ]

  HasOctet-fill :
      (current : ℕ) (names : List String) (m m' : Map ℕ) (c : String)
      → fill temp unused current names m ≡ ok m'
      → HasOctet m c
      → HasOctet m' c
  HasOctet-fill current names m m' c h = λ p.
      (fill_induction (λ _ n. HasOctet n c)
        (λ cur name index n new e. HasOctet-insert name c index n) current names m m' h p).1

  module _ (current : ℕ) (name : String) (names : List String) (m m' : Map ℕ) where
    fill-kept :
        is_unassigned temp name ≡ false
        → fill temp unused current names m ≡ ok m'
        → fill temp unused current (name ∷ names) m ≡ ok m'
    unfolding fill
    fill-kept e run = rw e run

    fill-taken :
        (index : ℕ)
        → is_unassigned temp name ≡ true
        → get_elem? unused current ≡ some index
        → fill temp unused (suc current) names (insert name index m) ≡ ok m'
        → fill temp unused current (name ∷ names) m ≡ ok m'
    unfolding fill
    fill-taken index e at run = rw (e, at) run

  -- With an unused index for each of these the loop does not panic, and every cluster has an octet.
  pub fill_total :
      (current : ℕ) (names : List String) (m : Map ℕ)
      → missing temp names + current ≤ length unused
      → ((c : String) → is_unassigned temp c ≡ false → HasOctet m c)
      → (m' : Map ℕ) × (fill temp unused current names m ≡ ok m') × All (HasOctet m') names
  fill_total current [] m room old = (m, unfold fill in refl, tt)
  fill_total current (name ∷ names) m room old = elim (Bool-cases (is_unassigned temp name)) [
    | inr e ↦
        let (m', run, rest) = fill_total current names m (ground (arith, room, e)) old in
        (
          m',
          fill-kept current name names m m' e run,
          (HasOctet-fill current names m m' name run (old name e), rest),
        )
    | inl e ↦
        let (index, at) = get_elem?-lt_length unused current (ground (arith, room, e)) in
        let (m', run, rest) =
          fill_total (suc current) names (insert name index m) (ground (arith, room, e))
            (λ c k. HasOctet-insert name c index m (old c k)) in
        (
          m',
          fill-taken current name names m m' index e at run,
          (
            HasOctet-fill (suc current) names (insert name index m) m' name run
                (index, rw (lookup-insert name name index m, eq_refl name)),
            rest,
          ),
        )
  ]
