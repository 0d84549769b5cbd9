-- ===== src/Slices/Namespaces/Skipped.antt =====
-- The loop that removes clusters passes over the one behind a removed one (service/slice_config_service.go).
use kubeslice_controller.Common.{
  ℕ, String, ◌≡◌, ◌≢◌, ap, sym, ◌∙◌, if◌then◌else◌, ◌++◌, keep_if, true, false, Bool, Bool-cases,
  inl, inr, List, [], ◌∷◌, contains, filter, not, ◌==◌, eq_iff, eq_refl, arith,
}
use kubeslice_controller.Util.Arrays.{remove_element_from_array}
use kubeslice_controller.Slices.Namespaces.{
  Clusters, held, without, without_if, visit_if, remove_clusters, namespace_and_cluster,
}

abbrev state : List String → ℕ → Clusters
state array size = record { array = array; size = size }

-- The first place is vacated.
first_removed : (a b c : String) → without a (state (a ∷ b ∷ c ∷ []) 3) ≡ state (b ∷ c ∷ c ∷ []) 2
unfolding remove_element_from_array
first_removed a b c =
    let here : contains (a ∷ b ∷ c ∷ []) a ≡ true = ground (arith, eq_refl a) in
    ap (λ found. without_if found a (state (a ∷ b ∷ c ∷ []) 3)) here
    ∙ ap
        (λ same.
          state
            ((if same then b ∷ c ∷ [] else a ∷ remove_element_from_array (b ∷ c ∷ []) a)
              ++ (c ∷ []))
            2)
        (eq_refl a)

module _ (b c : String) (differ : (b == c) ≡ false) where
  last_removed : without c (state (b ∷ c ∷ c ∷ []) 2) ≡ state (b ∷ c ∷ c ∷ []) 1
  unfolding remove_element_from_array
  last_removed =
      let here : contains (b ∷ c ∷ []) c ≡ true = ground (arith, differ, eq_refl c) in
      ap (λ found. without_if found c (state (b ∷ c ∷ c ∷ []) 2)) here
      ∙ ap
          (λ same.
            state
              ((if same then c ∷ [] else b ∷ remove_element_from_array (c ∷ []) c) ++ (c ∷ c ∷ []))
              1)
          differ
      ∙ ap (λ same. state ((b ∷ (if same then [] else c ∷ [])) ++ (c ∷ c ∷ [])) 1) (eq_refl c)

  not_there : without c (state (b ∷ c ∷ c ∷ []) 1) ≡ state (b ∷ c ∷ c ∷ []) 1
  not_there =
      let absent : contains (b ∷ []) c ≡ false = ground (arith, differ) in
      ap (λ found. without_if found c (state (b ∷ c ∷ c ∷ []) 1)) absent

module _ (to_remove : List String) (namespace a b c : String) where
  abbrev takes : String → Bool
  takes x = contains to_remove (namespace_and_cluster namespace x)

  -- What the loop leaves where its last rounds find the third cluster at two places.
  last_rounds :
      (b == c) ≡ false
      → held (remove_clusters to_remove namespace 2 1 (state (b ∷ c ∷ c ∷ []) 2))
        ≡ b ∷ keep_if (not (takes c)) c []
  unfolding remove_clusters
  last_rounds differ = elim (Bool-cases (takes c)) [
    | inl third ↦
        ap (λ s. held (remove_clusters to_remove namespace 1 2 s))
          (ap (λ t. visit_if to_remove t c (state (b ∷ c ∷ c ∷ []) 2)) third
            ∙ last_removed b c differ)
        ∙ ap held (
            ap (λ t. visit_if to_remove t c (state (b ∷ c ∷ c ∷ []) 1)) third
            ∙ not_there b c differ)
        ∙ ap (λ t. b ∷ keep_if (not t) c []) (sym third)
    | inr kept ↦
        ap (λ s. held (remove_clusters to_remove namespace 1 2 s))
          (ap (λ t. visit_if to_remove t c (state (b ∷ c ∷ c ∷ []) 2)) kept)
        ∙ ap (λ t. held (visit_if to_remove t c (state (b ∷ c ∷ c ∷ []) 2))) kept
        ∙ ap (λ t. b ∷ keep_if (not t) c []) (sym kept)
  ]

-- If the first of three clusters of a namespace is to be removed, and the other two differ, the loop leaves the
-- second one, whether or not that is to be removed too, and the third one if it is not to be removed.
remove_clusters-skips :
    (to_remove : List String) (namespace a b c : String)
    → b ≢ c
    → contains to_remove (namespace_and_cluster namespace a) ≡ true
    → held (remove_clusters to_remove namespace 3 0 (record { array = a ∷ b ∷ c ∷ []; size = 3 }))
      ≡ b ∷ filter (λ x. not (contains to_remove (namespace_and_cluster namespace x))) (c ∷ [])
unfolding remove_clusters
remove_clusters-skips to_remove namespace a b c differ first =
    ap (λ s. held (remove_clusters to_remove namespace 2 1 s))
      (ap (λ t. visit_if to_remove t a (state (a ∷ b ∷ c ∷ []) 3)) first ∙ first_removed a b c)
    ∙ last_rounds to_remove namespace a b c (ground (arith, differ, eq_iff b c))
