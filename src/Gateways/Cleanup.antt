-- ===== src/Gateways/Cleanup.antt =====
-- Deletion of gateways (service/worker_slice_gateway_service.go).
use kubeslice_controller.Common.{
  ℕ, String, ◌≡◌, ◌≢◌, refl, sym, subst, ◌↔◌, ◌⊎◌, Bool, true, false, not, ◌||◌, List, some, Map,
  contains, filter, ◌=?◌, =?_iff, arith,
}
use std.Path.{fun_ext}
use kubeslice_controller.Go.{Outcome, ok, err, panic}
use kubeslice_controller.Go.Effect.{M, ◌>>=◌, asks, each, resume}
use kubeslice_controller.Resources.Worker.{WorkerSliceGateway}
use kubeslice_controller.Platform.{Platform, list_resources}
use kubeslice_controller.Platform.Reporting.{delete_reported, where_true, each-filter}
use kubeslice_controller.Gateways.Numbers.{calculate_gateway_number}
use kubeslice_controller.Gateways.Addresses.{octet_of}
use kubeslice_controller.Gateways.Certs.{gateway_kind}

-- The test of cleanupObsoleteGateways.
unfoldable pub is_obsolete : List String → Map ℕ → WorkerSliceGateway → Bool
is_obsolete clusters cluster_map gateway =
    let source = gateway.spec.local_gateway_config.cluster_name in
    let destination = gateway.spec.remote_gateway_config.cluster_name in
    not (contains clusters source)
    || (not (contains clusters destination)
        || not (
            calculate_gateway_number (octet_of cluster_map source)
              (octet_of cluster_map destination)
            =? gateway.spec.gateway_number))

module _ {W : Type 0} (platform : Platform W) where
  -- ListWorkerSliceGateways
  unfoldable pub list_gateways : Map String → String → W → Outcome (List WorkerSliceGateway)
  list_gateways label namespace w =
      list_resources platform.worker_slice_gateways label (some namespace) w

  -- The deletion of one gateway with its reports.
  unfoldable pub delete_gateway : WorkerSliceGateway → M W (Unit {0})
  delete_gateway =
      delete_reported platform gateway_kind platform.worker_slice_gateways (λ g. g.metadata)
        (record { event = "EventWorkerSliceGatewayDeleted"; action = "deleted" })
        (record { event = "EventWorkerSliceGatewayDeletionFailed"; action = "deletion_failed" })

  -- DeleteWorkerSliceGatewaysByLabel
  unfoldable pub delete_worker_slice_gateways_by_label : Map String → String → M W (Unit {0})
  unfolding list_gateways delete_gateway
  delete_worker_slice_gateways_by_label label namespace = do
    gateways ← asks (list_gateways label namespace)
    each gateways delete_gateway

  -- cleanupObsoleteGateways
  unfoldable pub cleanup_obsolete_gateways :
      String → Map String → List String → Map ℕ → M W (Unit {0})
  unfolding list_gateways delete_gateway is_obsolete
  cleanup_obsolete_gateways namespace owner_label clusters cluster_map = do
    gateways ← asks (list_gateways owner_label namespace)
    each gateways (where_true (is_obsolete clusters cluster_map) delete_gateway)

  -- A server that lists of the gateways only those that pass a test.
  abbrev pub narrowed :
      (WorkerSliceGateway → Bool)
      → Outcome (List WorkerSliceGateway)
      → Outcome (List WorkerSliceGateway)
  narrowed p (ok gateways) = ok (filter p gateways)
  narrowed p (err e) = err e
  narrowed p panic = panic

same_bool : (a b : Bool) → (a ≡ true → b ≡ true) → (b ≡ true → a ≡ true) → a ≡ b
same_bool true b h k = sym (h refl)
same_bool false true h k = k refl
same_bool false false h k = refl

module _ (clusters : List String) (cluster_map : Map ℕ) where
  -- A gateway from or to a cluster that the slice has not, or with another number than the octets of its
  -- clusters give.
  abbrev pub IsObsolete : WorkerSliceGateway → Type 0
  IsObsolete gateway =
      (contains clusters gateway.spec.local_gateway_config.cluster_name ≡ false)
      ⊎ ((contains clusters gateway.spec.remote_gateway_config.cluster_name ≡ false)
          ⊎ (calculate_gateway_number
                (octet_of cluster_map gateway.spec.local_gateway_config.cluster_name)
                (octet_of cluster_map gateway.spec.remote_gateway_config.cluster_name)
              ≢ gateway.spec.gateway_number))

  -- is_obsolete tests these conditions.
  pub is_obsolete_iff :
      (gateway : WorkerSliceGateway)
      → (is_obsolete clusters cluster_map gateway ≡ true) ↔ IsObsolete gateway
  unfolding is_obsolete
  is_obsolete_iff gateway =
      let number =
        =?_iff
          (calculate_gateway_number
            (octet_of cluster_map gateway.spec.local_gateway_config.cluster_name)
            (octet_of cluster_map gateway.spec.remote_gateway_config.cluster_name))
          gateway.spec.gateway_number in
      (λ h. ground (arith, h, number), λ h. ground (arith, h, number))

  same_test :
      (p : WorkerSliceGateway → Bool)
      → ((gateway : WorkerSliceGateway) → (p gateway ≡ true) ↔ IsObsolete gateway)
      → is_obsolete clusters cluster_map ≡ p
  same_test p h = fun_ext (λ gateway.
      same_bool (is_obsolete clusters cluster_map gateway) (p gateway)
        (λ k. (h gateway).1 ((is_obsolete_iff gateway).0 k))
        (λ k. (is_obsolete_iff gateway).1 ((h gateway).0 k)))

  module _ {W : Type 0} (platform : Platform W) where
    -- cleanupObsoleteGateways deletes, in the order of the list, exactly those of the listed gateways that are
    -- from or to a cluster the slice does not have or do not have the number that the octets of their
    -- clusters give, and stops at the first that cannot be deleted: for every test of these conditions it
    -- is the loop of DeleteWorkerSliceGatewaysByLabel over the gateways that pass the test.
    pub cleanup_obsolete_gateways-eq-filter :
        (namespace : String) (label : Map String) (w : W) (p : WorkerSliceGateway → Bool)
        → ((gateway : WorkerSliceGateway) → (p gateway ≡ true) ↔ IsObsolete gateway)
        → cleanup_obsolete_gateways platform namespace label clusters cluster_map w
          ≡ (asks (λ v. narrowed platform p (list_gateways platform label namespace v))
                >>= λ gateways. each gateways (delete_gateway platform))
              w
    unfolding cleanup_obsolete_gateways
    cleanup_obsolete_gateways-eq-filter namespace label w p h =
        subst
          (λ test.
            cleanup_obsolete_gateways platform namespace label clusters cluster_map w
            ≡ (asks (λ v. narrowed platform test (list_gateways platform label namespace v))
                  >>= λ gateways. each gateways (delete_gateway platform))
                w)
          (same_test p h) (go (list_gateways platform label namespace w))
      where
        go :
            (r : Outcome (List WorkerSliceGateway))
            → resume
                (r, w)
                (λ gateways.
                  each gateways
                    (where_true (is_obsolete clusters cluster_map) (delete_gateway platform)))
              ≡ resume
                  (narrowed platform (is_obsolete clusters cluster_map) r, w)
                  (λ gateways. each gateways (delete_gateway platform))
        go (ok gateways) =
            each-filter (is_obsolete clusters cluster_map) (delete_gateway platform) gateways w
        go (err e) = refl
        go panic = refl
