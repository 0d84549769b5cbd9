-- ===== src/WorkerConfigs/Octets/Total.antt =====
-- ComputeClusterMap as a whole: it does not panic, gives every cluster an octet of its own, and changes none.
use kubeslice_controller.Common.{
  ℕ, suc, ◌+◌, ◌≤◌, ◌<◌, String, true, false, List, [], ◌∷◌, Option, none, some, Map, lookup,
  insert, ◌≡◌, refl, ap, ◌==◌, eq_iff, arith, Bool-cases, inl, inr, length, All, All-map, get_elem?,
  lookup-insert, ◌≢◌, ◌∙◌, contains,
}
use kubeslice_controller.Go.{ok}
use kubeslice_controller.Go.Text.{itoa, itoa-ne-nil}
use kubeslice_controller.Resources.Worker.{WorkerSliceConfig}
use kubeslice_controller.WorkerConfigs.Octets.{
  Assigned, cluster_of, read_octet, read_config, read_configs, is_unassigned, nothing_assigned,
  unused_from, fill, compute_cluster_map,
}
use kubeslice_controller.WorkerConfigs.Octets.Reading.{
  AreConsistent, HasItsOctet, IsRead, IsNew, is_unassigned-insert, read_configs-IsRead_nothing,
  read_configs-HasItsOctet, All-IsNew, All-IsNew_nothing,
}
use kubeslice_controller.WorkerConfigs.Octets.Filling.{
  IsInjective, HasOctet, missing, fill_total, fill-IsInjective, lookup-fill, fill_from,
}
use kubeslice_controller.WorkerConfigs.Octets.Unused.{
  unused_from_range, unused_from_distinct, length-unused_from,
}

-- A cluster that was missing and is entered with the empty text is missing still.
unassigned_still :
    (k name : String) (temp : Map String)
    → lookup k temp ≡ none
    → is_unassigned (insert k "" temp) name ≡ is_unassigned temp name
unassigned_still k name temp e = elim (Bool-cases (k == name)) [
  | inl same ↦
      rw (is_unassigned-insert k name "" temp, same) (rw (← (eq_iff k name).0 same) (rw e refl))
  | inr other ↦ rw (is_unassigned-insert k name "" temp, other) refl
]

missing-none :
    (k : String) (temp : Map String) (names : List String)
    → lookup k temp ≡ none
    → missing (insert k "" temp) names ≡ missing temp names
missing-none k temp [] e = refl
missing-none k temp (name ∷ names) e =
    rw (unassigned_still k name temp e, missing-none k temp names e) refl

-- A cluster of the list that gets an octet is one fewer to serve.
missing-le :
    (k t : String) (temp : Map String) (names : List String)
    → (t == "") ≡ false
    → missing (insert k t temp) names ≤ missing temp names
missing-le k t temp [] e = omega arith
missing-le k t temp (name ∷ names) e =
    ground (arith, missing-le k t temp names e, is_unassigned-insert k name t temp, e)

missing-some :
    (k t : String) (temp : Map String) (names : List String)
    → (t == "") ≡ false
    → is_unassigned temp k ≡ true
    → contains names k ≡ true
    → missing (insert k t temp) names < missing temp names
missing-some k t temp [] e new h = cc
missing-some k t temp (name ∷ names) e new h = ground (
  arith,
  missing-some k t temp names e new,
  missing-le k t temp names e,
  eq_iff name k,
  eq_iff k name,
  is_unassigned-insert k name t temp,
  e,
)

-- The used octets and the clusters to serve are together no more than the clusters of the slice.
module _ (names : List String) where
  abbrev Room : Assigned → Type 0
  Room s = missing s.temp_cluster_mapping names + length s.used_indexes ≤ length names

  printed : (o : ℕ) → (itoa o == "") ≡ false
  printed o = ground (arith, eq_iff (itoa o) "", itoa-ne-nil o)

  read_config-Room :
      (s : Assigned) (x : WorkerSliceConfig)
      → lookup (cluster_of x) s.temp_cluster_mapping ≡ none
      → contains names (cluster_of x) ≡ true
      → Room s
      → Room (read_config s x)
  unfolding read_config
  read_config-Room s x new in_slice room = go x.spec.octet
    where
      go : (octet : Option ℕ) → Room (read_octet s (cluster_of x) octet)
      go none = omega (arith, missing-none (cluster_of x) s.temp_cluster_mapping names new)
      go (some o) = omega (
        arith,
        missing-some (cluster_of x) (itoa o) s.temp_cluster_mapping names (printed o) (rw new refl)
            in_slice,
      )

  read_configs-Room :
      (s : Assigned) (configs : List WorkerSliceConfig)
      → AreConsistent configs
      → All (IsNew s) configs
      → All (λ x. contains names (cluster_of x) ≡ true) configs
      → Room s
      → Room (read_configs s configs)
  unfolding read_configs
  read_configs-Room s [] fit new h room = room
  read_configs-Room s (x ∷ xs) fit new h room =
      read_configs-Room (read_config s x) xs fit.1 (All-IsNew s x xs fit.0 new.1) h.1
        (read_config-Room s x new.0.0 h.0 room)

read_config-lt :
    (n : ℕ) (s : Assigned) (x : WorkerSliceConfig)
    → ((o : ℕ) → x.spec.octet ≡ some o → o < n)
    → ((c : String) (i : ℕ) → lookup c s.cluster_mapping ≡ some i → i < n)
    → (c : String) (i : ℕ) → lookup c (read_config s x).cluster_mapping ≡ some i
    → i < n
unfolding read_config
read_config-lt n s x small old c i = go x.spec.octet small
  where
    go :
        (octet : Option ℕ)
        → ((o : ℕ) → octet ≡ some o → o < n)
        → lookup c (read_octet s (cluster_of x) octet).cluster_mapping ≡ some i
        → i < n
    go none k h = old c i h
    go (some o) k h =
        ground (arith, h, k o refl, old c i, lookup-insert (cluster_of x) c o s.cluster_mapping)

read_configs-lt :
    (n : ℕ) (s : Assigned) (configs : List WorkerSliceConfig)
    → All (λ x. (o : ℕ) → x.spec.octet ≡ some o → o < n) configs
    → ((c : String) (i : ℕ) → lookup c s.cluster_mapping ≡ some i → i < n)
    → (c : String) (i : ℕ) → lookup c (read_configs s configs).cluster_mapping ≡ some i
    → i < n
unfolding read_configs
read_configs-lt n s [] small old = old
read_configs-lt n s (x ∷ xs) small old =
    read_configs-lt n (read_config s x) xs small.1 (read_config-lt n s x small.0 old)

nothing_there : (c : String) (i : ℕ) → lookup c nothing_assigned.cluster_mapping ≢ some i
unfolding lookup
nothing_there c i h = cc

all_missing : (names : List String) → missing [] names ≡ length names
unfolding lookup
all_missing [] = refl
all_missing (name ∷ names) = ap suc (all_missing names)

module _ (names : List String) (configs : List WorkerSliceConfig) where
  after : Assigned
  after = read_configs nothing_assigned configs

  free : List ℕ
  free = unused_from after.used_indexes (length names) 0

  compute_cluster_map-fill :
      compute_cluster_map names configs
      ≡ fill after.temp_cluster_mapping free 0 names after.cluster_mapping
  unfolding compute_cluster_map after free
  compute_cluster_map-fill = refl

  module _ (fit : AreConsistent configs) where
    after-IsRead : IsRead after
    unfolding after
    after-IsRead = read_configs-IsRead_nothing configs fit

    -- No unused index is an octet already.
    free_apart :
        (c : String) (i j : ℕ) → lookup c after.cluster_mapping ≡ some i → get_elem? free j ≢ some i
    unfolding free
    free_apart c i j h k =
        cc
          (after-IsRead.used c i h, (unused_from_range after.used_indexes (length names) 0 j i k).2)

    -- From worker slices that agree with one another, no two clusters get one octet.
    compute_cluster_map-IsInjective :
        (m : Map ℕ) → compute_cluster_map names configs ≡ ok m → IsInjective m
    compute_cluster_map-IsInjective m run =
        fill-IsInjective after.temp_cluster_mapping free
          (unfold free in unused_from_distinct after.used_indexes (length names) 0) names
          after.cluster_mapping m (rw (← compute_cluster_map-fill) run)
          (record { apart = after-IsRead.injective }) free_apart

    old_octet :
        (c : String) (o : ℕ)
        → lookup c after.cluster_mapping ≡ some o
        → is_unassigned after.temp_cluster_mapping c ≡ false
    old_octet c o h = rw (after-IsRead.keyed c o h) (printed [] o)

    -- From worker slices that agree with one another, each that has an octet keeps it.
    pub compute_cluster_map-HasItsOctet :
        (m : Map ℕ) → compute_cluster_map names configs ≡ ok m → All (HasItsOctet m) configs
    compute_cluster_map-HasItsOctet m run =
        let old : All (HasItsOctet after.cluster_mapping) configs =
          unfold after in read_configs-HasItsOctet nothing_assigned configs fit in
        All-map
          (λ x h o e.
            lookup-fill after.temp_cluster_mapping free 0 names after.cluster_mapping m
              (cluster_of x) (rw (← compute_cluster_map-fill) run)
              (old_octet (cluster_of x) o (h o e))
            ∙ h o e)
          configs old

    -- Enough unused indexes are left for the clusters that are missing.
    after-Room :
        All (λ x. contains names (cluster_of x) ≡ true) configs
        → missing after.temp_cluster_mapping names + 0 ≤ length free
    unfolding after free
    after-Room in_slice = omega (
      arith,
      read_configs-Room names nothing_assigned configs fit (All-IsNew_nothing configs) in_slice
          (omega (arith, all_missing names)),
      length-unused_from (read_configs nothing_assigned configs).used_indexes (length names) 0,
    )

  -- For worker slices that agree with one another and belong to clusters of the slice, ComputeClusterMap
  -- does not run out of unused indexes, and gives each cluster an octet, no two clusters the same one, and
  -- each worker slice that has an octet that octet.
  pub compute_cluster_map_total :
      AreConsistent configs
      → All (λ x. contains names (cluster_of x) ≡ true) configs
      → (m : Map ℕ) × (compute_cluster_map names configs ≡ ok m)
        × All (HasOctet m) names
        × IsInjective m
        × All (HasItsOctet m) configs
  compute_cluster_map_total fit in_slice =
      let (m, run, all) =
        fill_total after.temp_cluster_mapping free 0 names after.cluster_mapping
          (after-Room fit in_slice) (after-IsRead fit).assigned in
      let done : compute_cluster_map names configs ≡ ok m = compute_cluster_map-fill ∙ run in
      (
        m,
        done,
        all,
        compute_cluster_map-IsInjective fit m done,
        compute_cluster_map-HasItsOctet fit m done,
      )

  module _ (n : ℕ) (small : All (λ x. (o : ℕ) → x.spec.octet ≡ some o → o < n) configs)
      (few : length names ≤ n) where
    -- Where the octets that the worker slices have are below the maximum, and the clusters are no more, the
    -- octets that ComputeClusterMap returns are below the maximum.
    pub compute_cluster_map-lt :
        (m : Map ℕ) (c : String) (i : ℕ)
        → compute_cluster_map names configs ≡ ok m
        → lookup c m ≡ some i
        → i < n
    unfolding free after
    compute_cluster_map-lt m c i run e =
        elim (fill_from after.temp_cluster_mapping free 0 names after.cluster_mapping m c i
          (rw (← compute_cluster_map-fill) run) e) [
            | inl old ↦
                read_configs-lt n nothing_assigned configs small
                  (λ d j h. absurd (nothing_there d j h)) c i old
            | inr (j, new) ↦
                omega (arith, (unused_from_range after.used_indexes (length names) 0 j i new).1)
          ]
