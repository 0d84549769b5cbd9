-- ===== src/WorkerConfigs/Octets/Reading.antt =====
-- What the first loop of ComputeClusterMap knows of the octets that the worker slices already have.
use kubeslice_controller.Common.{
  ℕ, sym, ◌∙◌, eq_refl, String, true, false, List, [], ◌∷◌, Option, none, some, lookup, insert,
  lookup-insert, ◌≡◌, ◌≢◌, refl, ◌==◌, eq_iff, arith, All, Bool-cases, inl, inr, Map, if◌then◌else◌,
}
use kubeslice_controller.Go.Text.{itoa}
use kubeslice_controller.Resources.Worker.{WorkerSliceConfig}
use kubeslice_controller.WorkerConfigs.Octets.{
  Assigned, cluster_of, read_octet, read_config, read_configs, is_used, is_unassigned,
  nothing_assigned,
}

-- Two worker slices of one slice are for two clusters and have no octet in common.
abbrev AgreesWith : WorkerSliceConfig → WorkerSliceConfig → Type 0
AgreesWith x y =
    (cluster_of x ≢ cluster_of y)
    × ((octet : ℕ) → x.spec.octet ≡ some octet → y.spec.octet ≢ some octet)

abbrev pub AreConsistent : List WorkerSliceConfig → Type 0
AreConsistent [] = Unit
AreConsistent (x ∷ xs) = All (AgreesWith x) xs × AreConsistent xs

-- The maps hold octets that are used, one for a cluster at most, and one cluster for an octet at most.
pub record IsRead (s : Assigned) : Type 0 where
  pub used :
      (c : String) (i : ℕ) → lookup c s.cluster_mapping ≡ some i → is_used s.used_indexes i ≡ true
  pub injective :
      (c d : String) (i : ℕ)
      → lookup c s.cluster_mapping ≡ some i
      → lookup d s.cluster_mapping ≡ some i
      → c ≡ d
  pub keyed :
      (c : String) (i : ℕ)
      → lookup c s.cluster_mapping ≡ some i
      → lookup c s.temp_cluster_mapping ≡ some (itoa i)
  pub assigned :
      (c : String)
      → is_unassigned s.temp_cluster_mapping c ≡ false
      → (i : ℕ) × (lookup c s.cluster_mapping ≡ some i)

IsRead-nothing : IsRead nothing_assigned
unfolding lookup
IsRead-nothing = record {
  used = λ c i h. cc;
  injective = λ c d i h k. cc;
  keyed = λ c i h. cc;
  assigned = λ c h. ground arith;
}

pub is_unassigned-insert :
    (k c t : String) (temp : Map String)
    → is_unassigned (insert k t temp) c ≡ (if k == c then t == "" else is_unassigned temp c)
is_unassigned-insert k c t temp = elim (Bool-cases (k == c)) [
  | inl same ↦ rw (lookup-insert k c t temp, same)
  | inr other ↦ rw (lookup-insert k c t temp, other)
]

module _ (s : Assigned) (cluster : String) (r : IsRead s) where
  new_key :
      lookup cluster s.temp_cluster_mapping ≡ none
      → (i : ℕ) → lookup cluster s.cluster_mapping ≢ some i
  new_key fresh i h = cc (fresh, r.keyed cluster i h)

  read_octet-IsRead-none :
      lookup cluster s.temp_cluster_mapping ≡ none → IsRead (read_octet s cluster none)
  unfolding read_octet
  read_octet-IsRead-none fresh = record {
    used = r.used;
    injective = r.injective;
    keyed = λ c i h. ground (
      arith,
      h,
      r.keyed c i h,
      fresh,
      eq_iff cluster c,
      lookup-insert cluster c "" s.temp_cluster_mapping,
    );
    assigned = λ c h.
        r.assigned c (ground (arith, h, is_unassigned-insert cluster c "" s.temp_cluster_mapping));
  }

  read_octet-IsRead-some :
      (o : ℕ)
      → lookup cluster s.temp_cluster_mapping ≡ none
      → is_used s.used_indexes o ≡ false
      → IsRead (read_octet s cluster (some o))
  unfolding read_octet
  read_octet-IsRead-some o fresh unused = record {
    used = λ c i h. ground (arith, h, r.used c i, lookup-insert cluster c o s.cluster_mapping);
    injective = λ c d i h k. ground (
      arith,
      h,
      k,
      r.used c i,
      r.used d i,
      r.injective c d i,
      eq_iff cluster c,
      eq_iff cluster d,
      lookup-insert cluster c o s.cluster_mapping,
      lookup-insert cluster d o s.cluster_mapping,
    );
    keyed = λ c i h. ground (
      arith,
      h,
      r.keyed c i,
      lookup-insert cluster c o s.cluster_mapping,
      lookup-insert cluster c (itoa o) s.temp_cluster_mapping,
    );
    assigned = λ c h. elim (Bool-cases (cluster == c)) [
      | inl same ↦ (o, rw (lookup-insert cluster c o s.cluster_mapping, same))
      | inr other ↦
          let (i, e) = r.assigned c (
            ground
              (arith, h, other, is_unassigned-insert cluster c (itoa o) s.temp_cluster_mapping)) in
          (i, rw (lookup-insert cluster c o s.cluster_mapping, other) e)
    ];
  }

-- A worker slice that the maps have not met yet.
abbrev pub IsNew : Assigned → WorkerSliceConfig → Type 0
IsNew s y =
    (lookup (cluster_of y) s.temp_cluster_mapping ≡ none)
    × ((octet : ℕ) → y.spec.octet ≡ some octet → is_used s.used_indexes octet ≡ false)

read_config-IsRead :
    (s : Assigned) (x : WorkerSliceConfig) → IsRead s → IsNew s x → IsRead (read_config s x)
unfolding read_config
read_config-IsRead s x r new = go x.spec.octet new.1
  where
    go :
        (octet : Option ℕ)
        → ((i : ℕ) → octet ≡ some i → is_used s.used_indexes i ≡ false)
        → IsRead (read_octet s (cluster_of x) octet)
    go none h = read_octet-IsRead-none s (cluster_of x) r new.0
    go (some o) h = read_octet-IsRead-some s (cluster_of x) r o new.0 (h o refl)

-- The rest of the list stays new after a worker slice that agrees with it.
read_config-IsNew :
    (s : Assigned) (x y : WorkerSliceConfig)
    → AgreesWith x y
    → IsNew s y
    → IsNew (read_config s x) y
unfolding read_config
read_config-IsNew s x y agree new = go x.spec.octet agree.1
  where
    go :
        (octet : Option ℕ)
        → ((i : ℕ) → octet ≡ some i → y.spec.octet ≢ some i)
        → IsNew (read_octet s (cluster_of x) octet) y
    go none h = (
      ground (
        arith,
        agree.0,
        new.0,
        eq_iff (cluster_of x) (cluster_of y),
        lookup-insert (cluster_of x) (cluster_of y) "" s.temp_cluster_mapping,
      ),
      new.1,
    )
    go (some o) h = (
      ground (
        arith,
        agree.0,
        new.0,
        eq_iff (cluster_of x) (cluster_of y),
        lookup-insert (cluster_of x) (cluster_of y) (itoa o) s.temp_cluster_mapping,
      ),
      λ i e. ground (arith, e, new.1 i e, h o refl),
    )

pub All-IsNew :
    (s : Assigned) (x : WorkerSliceConfig) (ys : List WorkerSliceConfig)
    → All (AgreesWith x) ys
    → All (IsNew s) ys
    → All (IsNew (read_config s x)) ys
All-IsNew s x [] a n = tt
All-IsNew s x (y ∷ ys) a n = (read_config-IsNew s x y a.0 n.0, All-IsNew s x ys a.1 n.1)

read_configs-IsRead :
    (s : Assigned) (configs : List WorkerSliceConfig)
    → AreConsistent configs
    → All (IsNew s) configs
    → IsRead s
    → IsRead (read_configs s configs)
unfolding read_configs
read_configs-IsRead s [] ok new r = r
read_configs-IsRead s (x ∷ xs) ok new r =
    read_configs-IsRead (read_config s x) xs ok.1 (All-IsNew s x xs ok.0 new.1)
      (read_config-IsRead s x r new.0)

pub All-IsNew_nothing : (configs : List WorkerSliceConfig) → All (IsNew nothing_assigned) configs
unfolding lookup
All-IsNew_nothing [] = tt
All-IsNew_nothing (x ∷ xs) = ((refl, λ i e. refl), All-IsNew_nothing xs)

-- The maps after the loop, from worker slices that agree with one another.
pub read_configs-IsRead_nothing :
    (configs : List WorkerSliceConfig)
    → AreConsistent configs
    → IsRead (read_configs nothing_assigned configs)
read_configs-IsRead_nothing configs ok =
    read_configs-IsRead nothing_assigned configs ok (All-IsNew_nothing configs) IsRead-nothing

read_config-other :
    (s : Assigned) (x : WorkerSliceConfig) (c : String)
    → cluster_of x ≢ c
    → lookup c (read_config s x).cluster_mapping ≡ lookup c s.cluster_mapping
unfolding read_config
read_config-other s x c ne = go x.spec.octet
  where
    go :
        (octet : Option ℕ)
        → lookup c (read_octet s (cluster_of x) octet).cluster_mapping ≡ lookup c s.cluster_mapping
    go none = refl
    go (some o) =
        ground
          (arith, ne, eq_iff (cluster_of x) c, lookup-insert (cluster_of x) c o s.cluster_mapping)

read_configs-other :
    (s : Assigned) (xs : List WorkerSliceConfig) (c : String)
    → All (λ x. c ≢ cluster_of x) xs
    → lookup c (read_configs s xs).cluster_mapping ≡ lookup c s.cluster_mapping
unfolding read_configs
read_configs-other s [] c h = refl
read_configs-other s (x ∷ xs) c h =
    read_configs-other (read_config s x) xs c h.1 ∙ read_config-other s x c (λ e. h.0 (sym e))

read_config-octet :
    (s : Assigned) (x : WorkerSliceConfig) (o : ℕ)
    → x.spec.octet ≡ some o
    → lookup (cluster_of x) (read_config s x).cluster_mapping ≡ some o
unfolding read_config
read_config-octet s x o e = go x.spec.octet e
  where
    go :
        (octet : Option ℕ)
        → octet ≡ some o
        → lookup (cluster_of x) (read_octet s (cluster_of x) octet).cluster_mapping ≡ some o
    go none h = cc
    go (some p) h =
        simp (lookup-insert (cluster_of x) (cluster_of x) p s.cluster_mapping, eq_refl) h

-- A worker slice that has an octet has it in the map.
abbrev pub HasItsOctet : Map ℕ → WorkerSliceConfig → Type 0
HasItsOctet m x = (o : ℕ) → x.spec.octet ≡ some o → lookup (cluster_of x) m ≡ some o

others :
    (x : WorkerSliceConfig) (xs : List WorkerSliceConfig)
    → All (AgreesWith x) xs
    → All (λ y. cluster_of x ≢ cluster_of y) xs
others x [] h = tt
others x (y ∷ ys) h = (h.0.0, others x ys h.1)

pub read_configs-HasItsOctet :
    (s : Assigned) (xs : List WorkerSliceConfig)
    → AreConsistent xs
    → All (HasItsOctet (read_configs s xs).cluster_mapping) xs
unfolding read_configs
read_configs-HasItsOctet s [] ok = tt
read_configs-HasItsOctet s (x ∷ xs) ok = (
  λ o e.
      read_configs-other (read_config s x) xs (cluster_of x) (others x xs ok.0)
      ∙ read_config-octet s x o e,
  read_configs-HasItsOctet (read_config s x) xs ok.1,
)
