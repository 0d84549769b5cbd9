-- ===== src/SliceWebhook/ServiceTypes.antt =====
-- What the validation of the gateways' service types accepts
-- (validateSlicegatewayServiceType of service/slice_config_webhook_validation.go).
use kubeslice_controller.Common.{
  ℕ, ◌+◌, String, ◌≡◌, ◌≢◌, refl, ◌↔◌, ◌⊎◌, inl, inr, true, false, not, ◌&&◌, List, [], ◌∷◌, Map,
  lookup, insert, lookup-insert, get_or, some, ◌==◌, eq_iff, arith, contains, IsDistinct, All, ltb,
  Option-cases, ◌∙◌,
}
use kubeslice_controller.Go.{ok}
use kubeslice_controller.Go.Accepts.{reject_if->>_iff}
use kubeslice_controller.Resources.Slice.{
  SliceConfig, SliceGatewayServiceType, WorkerSliceGatewayProvider,
}
use kubeslice_controller.Util.Arrays.Laws.{contains_string-contains}
use kubeslice_controller.Util.Arrays.{contains_string}
use kubeslice_controller.SliceWebhook.Network.{
  validate_slicegateway_service_type, service_types_from,
}

abbrev pub clusters_of_entries : List SliceGatewayServiceType → List String
clusters_of_entries [] = []
clusters_of_entries (entry ∷ rest) = entry.cluster ∷ clusters_of_entries rest

-- A cluster's name that an entry may have: a star or a cluster of the slice.
abbrev pub IsEntry : List String → String → Type 0
IsEntry clusters name = (name ≢ "") × ((name ≡ "*") ⊎ (contains clusters name ≡ true))

abbrev IsFresh : Map ℕ → List String → Type 0
IsFresh freq names = All (λ (name : String). get_or (lookup name freq) 0 ≡ 0) names

IsFresh-insert :
    (freq : Map ℕ) (name : String) (names : List String)
    → IsFresh (insert name 1 freq) names ↔ (IsFresh freq names × (contains names name ≡ false))
IsFresh-insert freq name [] = (λ h. (tt, refl), λ h. tt)
IsFresh-insert freq name (x ∷ names) = (
  λ h.
      let both = (IsFresh-insert freq name names).0 h.1 in
      ground (arith, both, h.0, lookup-insert name x 1 freq, eq_iff name x, eq_iff x name),
  λ h.
      let rest = (IsFresh-insert freq name names).1 (h.0.1, ground (arith, h)) in
      ground (arith, h, rest, lookup-insert name x 1 freq, eq_iff name x, eq_iff x name),
)

-- The three tests of one round.
round_iff :
    (clusters : List String) (freq : Map ℕ) (name : String)
    → (((name == "") ≡ false)
        × ((not (name == "*") && not (contains_string clusters name)) ≡ false)
        × (ltb 1 (get_or (lookup name freq) 0 + 1) ≡ false))
      ↔ (IsEntry clusters name × (get_or (lookup name freq) 0 ≡ 0))
round_iff clusters freq name = (
  λ h. ground (arith, h, contains_string-contains clusters name, eq_iff name "", eq_iff name "*"),
  λ h. ground (arith, h, contains_string-contains clusters name, eq_iff name "", eq_iff name "*"),
)

-- What the loop accepts, from the counts of the rounds before.
abbrev AreEntries : List String → Map ℕ → List String → Type 0
AreEntries clusters freq names =
    All (IsEntry clusters) names × IsDistinct names × IsFresh freq names

AreEntries-cons :
    (clusters : List String) (freq : Map ℕ) (name : String) (names : List String) (count : ℕ)
    → count ≡ 0
    → get_or (lookup name freq) 0 ≡ count
    → IsEntry clusters name
    → AreEntries clusters (insert name (count + 1) freq) names
      ↔ AreEntries clusters freq (name ∷ names)
AreEntries-cons clusters freq name names count z c entry = (
  λ h.
      let fresh = (IsFresh-insert freq name names).0 (with_one.0 h.2) in
      ((entry, h.0), (fresh.1, h.1), (c ∙ z, fresh.0)),
  λ h. (h.0.1, h.1.1, with_one.1 ((IsFresh-insert freq name names).1 (h.2.1, h.1.0))),
)
  where
    with_one : IsFresh (insert name (count + 1) freq) names ↔ IsFresh (insert name 1 freq) names
    with_one = rw z (λ h. h, λ h. h)

service_types_from_iff :
    (clusters : List String) (freq : Map ℕ) (entries : List SliceGatewayServiceType)
    → (service_types_from clusters freq entries ≡ ok tt)
      ↔ AreEntries clusters freq (clusters_of_entries entries)
unfolding service_types_from
service_types_from_iff clusters freq [] = (λ h. (tt, tt, tt), λ h. refl)
service_types_from_iff clusters freq (entry ∷ rest) =
    let count = get_or (lookup entry.cluster freq) 0 in
    let more = insert entry.cluster (count + 1) freq in
    let ih = service_types_from_iff clusters more rest in
    let round = round_iff clusters freq entry.cluster in
    let step = λ (z : count ≡ 0) (e : IsEntry clusters entry.cluster).
      AreEntries-cons clusters freq entry.cluster (clusters_of_entries rest) count z refl e in
    (
      λ h.
          let a = (reject_if->>_iff _ _ _).0 h in
          let b = (reject_if->>_iff _ _ _).0 a.1 in
          let c = (reject_if->>_iff _ _ _).0 b.1 in
          let good = round.0 (a.0, b.0, c.0) in (step good.1 good.0).0 (ih.0 c.1),
      λ h.
          let tests = round.1 (h.0.0, h.2.0) in
          let last = (reject_if->>_iff _ _ _).1 (tests.2, ih.1 ((step h.2.0 h.0.0).1 h)) in
          (reject_if->>_iff _ _ _).1 (tests.0, (reject_if->>_iff _ _ _).1 (tests.1, last)),
    )

IsFresh-nil : (names : List String) → IsFresh [] names
unfolding lookup
IsFresh-nil [] = tt
IsFresh-nil (x ∷ names) = (refl, IsFresh-nil names)

-- validateSlicegatewayServiceType returns no error exactly when the slice has a gateway provider, no two
-- of its entries name the same cluster, and each names a star or a participating cluster, and not the
-- empty text.
pub validate_slicegateway_service_type_iff :
    (slice : SliceConfig)
    → (validate_slicegateway_service_type slice ≡ ok tt) ↔ (
        (provider : WorkerSliceGatewayProvider) × (slice.spec.slice_gateway_provider
          ≡ some provider)
        × IsDistinct (clusters_of_entries provider.slice_gateway_service_type)
        × All
            (IsEntry slice.spec.clusters)
            (clusters_of_entries provider.slice_gateway_service_type))
unfolding validate_slicegateway_service_type
validate_slicegateway_service_type_iff slice =
    elim (Option-cases slice.spec.slice_gateway_provider) [
      | inl e ↦ (λ h. cc, λ h. cc)
      | inr (provider, e) ↦
          let entries = provider.slice_gateway_service_type in
          let loop = service_types_from_iff slice.spec.clusters [] entries in
          (
            λ h. let good = loop.0 (rw e at h) in (provider, e, good.1, good.0),
            λ h.
                let same : provider ≡ h.0 = cc in
                rw e (
                  loop.1 (
                    rw same (
                      h.3,
                      h.2,
                      IsFresh-nil (clusters_of_entries h.0.slice_gateway_service_type),
                    ))),
          )
    ]
