-- ===== src/Webhooks/Workers/Accepted.antt =====
-- The webhook of worker slices accepts what the controller writes (service/worker_slice_config_service.go).
use kubeslice_controller.Common.{
  ℕ, String, ◌≡◌, refl, sym, ap, subst, ◌∙◌, List, [], ◌∷◌, Option, none, some, Option-cases, ◌⊎◌,
  inl, inr, Map, lookup, get_or, All, get_elem?, suc, zero,
}
use kubeslice_controller.Go.{already_exists, Outcome, ok, err, panic, ApiError}
use kubeslice_controller.Go.Effect.{◌>>=◌, M, pure, asks, resume, >>=_keeps}
use kubeslice_controller.Go.Text.{◌<>◌}
use kubeslice_controller.Resources.Slice.{SliceGatewayServiceType}
use kubeslice_controller.Resources.Worker.{WorkerSliceConfig}
use kubeslice_controller.Platform.{
  Platform, get_resource_if_exist, answer, create_resource, update_resource,
}
use kubeslice_controller.Util.Ipam.{get_cluster_prefix_pool}
use kubeslice_controller.WorkerConfigs.Cleanup.{report}
use kubeslice_controller.WorkerConfigs.Octets.{compute_cluster_map, cluster_of}
use kubeslice_controller.WorkerConfigs.Octets.Reading.{AreConsistent, HasItsOctet}
use kubeslice_controller.WorkerConfigs.Octets.Total.{compute_cluster_map-HasItsOctet}
use kubeslice_controller.WorkerConfigs.Minimal.{
  with_labels, with_network, with_subnet, new_worker_slice, touched, type_of_entry,
  protocol_of_entry, key_of_worker, after_write, create_worker_slice, update_worker_slice,
  write_network, network_clusters,
}
use kubeslice_controller.Webhooks.Workers.{
  validate_worker_slice_config_update, validate_worker_slice_config_update_iff,
}

All-get_elem? :
    (P : WorkerSliceConfig → Type 0) (xs : List WorkerSliceConfig) (i : ℕ) (x : WorkerSliceConfig)
    → get_elem? xs i ≡ some x
    → All P xs
    → P x
All-get_elem? P [] i x h each = cc
All-get_elem? P (y ∷ ys) zero x h each = subst P (cc) each.0
All-get_elem? P (y ∷ ys) (suc i) x h each = All-get_elem? P ys i x h each.1

-- The octet that a cluster has in the map.
abbrev octet_in : Map ℕ → String → ℕ
octet_in m cluster = get_or (lookup cluster m) 0

-- A worker slice of a cluster that has no octet, or the one of a listed worker slice of the cluster, or the one
-- that the map gives the cluster.
abbrev IsExpected : List WorkerSliceConfig → Map ℕ → String → WorkerSliceConfig → Type 0
IsExpected configs m cluster old =
    (old.spec.octet ≡ none)
    ⊎ (((i : ℕ) × (listed : WorkerSliceConfig) × (get_elem? configs i ≡ some listed)
          × (cluster_of listed ≡ cluster)
          × (old.spec.octet ≡ listed.spec.octet))
        ⊎ (old.spec.octet ≡ some (octet_in m cluster)))

module _ (names : List String) (configs : List WorkerSliceConfig) (m : Map ℕ)
    (fit : AreConsistent configs) (run : compute_cluster_map names configs ≡ ok m) where
  octet_accepted :
      (cluster : String) (old new : WorkerSliceConfig)
      → IsExpected configs m cluster old
      → new.spec.octet ≡ some (octet_in m cluster)
      → validate_worker_slice_config_update new old ≡ ok tt
  octet_accepted cluster old new (inl unset) e =
      (validate_worker_slice_config_update_iff new old).1 (inl unset)
  octet_accepted cluster old new (inr (inr same)) e =
      (validate_worker_slice_config_update_iff new old).1 (inr (same ∙ sym e))
  octet_accepted cluster old new (inr (inl (i, listed, here, there, same))) e =
      (validate_worker_slice_config_update_iff new old).1 (elim (Option-cases old.spec.octet) [
        | inl unset ↦ inl unset
        | inr (o, k) ↦
            let its : lookup (cluster_of listed) m ≡ some o =
              All-get_elem? (HasItsOctet m) configs i listed here
                (compute_cluster_map-HasItsOctet names configs fit m run) o (sym same ∙ k) in
            let read : octet_in m cluster ≡ o =
              ap (λ c. octet_in m c) (sym there) ∙ ap (λ found. get_or found 0) its in
            inr (k ∙ ap some (sym read) ∙ sym e)
      ])

  module _ {W : Type 0} (platform : Platform W) (namespace name slice_subnet cluster_cidr : String)
      (types : Map SliceGatewayServiceType) (P : W → Type 0)
      (expected : (cluster : String) (old : WorkerSliceConfig) (v : W)
        → P v
        → get_resource_if_exist platform.worker_slice_configs
            (key_of_worker platform namespace name cluster)
            v
          ≡ ok (some old)
        → IsExpected configs m cluster old)
      (updates : (cluster : String) (old new : WorkerSliceConfig) (v : W)
        → get_resource_if_exist platform.worker_slice_configs
            (key_of_worker platform namespace name cluster)
            v
          ≡ ok (some old)
        → new.metadata.name ≡ old.metadata.name
        → new.spec.octet ≡ some (octet_in m cluster)
        → validate_worker_slice_config_update new old ≡ ok tt
        → P v
        → P (platform.worker_slice_configs.update new v).1)
      (creates : (cluster : String) (new : WorkerSliceConfig) (v : W)
        → get_resource_if_exist platform.worker_slice_configs
            (key_of_worker platform namespace name cluster)
            v
          ≡ ok none
        → new.metadata.name ≡ name <> "-" <> cluster
        → new.spec.octet ≡ some (octet_in m cluster)
        → P v
        → P (platform.worker_slice_configs.create new v).1)
      (reports : (event action object_name : String) (v : W)
        → P v
        → P (report platform event action object_name v)) where
    after_write_keeps :
        (event action failed_event failed_action object_name : String) (r : Option ApiError × W)
        → P r.1
        → P
            (after_write platform event action failed_event failed_action object_name
              (answer platform.worker_slice_configs r)).1
    unfolding after_write
    after_write_keeps event action failed_event failed_action object_name (none, v) k =
        reports _ _ _ v k
    after_write_keeps event action failed_event failed_action object_name (some already_exists, v)
          k =
        reports _ _ _ _ (reports _ _ _ v k)
    after_write_keeps event action failed_event failed_action object_name (some e, v) k =
        reports _ _ _ v k

    create_worker_slice_keeps :
        (new : WorkerSliceConfig) (v : W)
        → P (platform.worker_slice_configs.create new v).1
        → P (create_worker_slice platform new v).1
    unfolding create_worker_slice create_resource
    create_worker_slice_keeps new v h =
        after_write_keeps "EventWorkerSliceConfigCreated" "created"
          "EventWorkerSliceConfigCreationFailed" "creation_failed" new.metadata.name
          (platform.worker_slice_configs.create new v) h

    update_worker_slice_keeps :
        (new : WorkerSliceConfig) (v : W)
        → P (platform.worker_slice_configs.update new v).1
        → P (update_worker_slice platform new v).1
    unfolding update_worker_slice update_resource
    update_worker_slice_keeps new v h =
        after_write_keeps "EventWorkerSliceConfigUpdated" "updated"
          "EventWorkerSliceConfigUpdateFailed" "update_failed" new.metadata.name
          (platform.worker_slice_configs.update new v) h

    write_network_keeps :
        (label : Map String) (cluster subnet : String) (found : Option WorkerSliceConfig) (v : W)
        → get_resource_if_exist platform.worker_slice_configs
            (key_of_worker platform namespace name cluster)
            v
          ≡ ok found
        → P v
        → P
            (write_network platform namespace name slice_subnet cluster_cidr types label cluster
              (octet_in m cluster)
              subnet
              found
              v).1
    unfolding write_network
    write_network_keeps label cluster subnet none v here h =
        let labels = with_labels namespace name cluster label in
        let entry = lookup cluster types in
        let new =
          with_subnet
            (with_network (new_worker_slice (name <> "-" <> cluster) namespace labels name)
              (octet_in m cluster) subnet (type_of_entry entry) (protocol_of_entry entry))
            slice_subnet in
        >>=_keeps P (create_worker_slice platform new) (λ _. pure labels) v
          (create_worker_slice_keeps new v (creates cluster new v here refl refl h)) (λ u w k. k)
    write_network_keeps label cluster subnet (some old) v here h =
        let entry = lookup cluster types in
        let new = touched (platform.now v) (
          with_network old (octet_in m cluster) subnet (type_of_entry entry)
            (protocol_of_entry entry)) in
        >>=_keeps P (update_worker_slice platform new) (λ _. pure label) v
          (update_worker_slice_keeps new v (
            updates cluster old new v here refl refl
              (octet_accepted cluster old new (expected cluster old v h here) refl) h))
          (λ u w k. k)

    -- The loop of CreateMinimalWorkerSliceConfig writes only what the webhook accepts: with the octets that
    -- ComputeClusterMap finds for worker slices that agree with one another, it keeps whatever is kept by
    -- reports, by creations of a missing worker slice with its cluster's octet, and by updates of the
    -- worker slice found under the cluster's name to its cluster's octet that
    -- ValidateWorkerSliceConfigUpdate accepts. What is kept is such that a worker slice found has no octet,
    -- that of a listed worker slice of the cluster, or the cluster's.
    pub network_clusters_keeps :
        (clusters : List String) (label : Map String) (w : W)
        → P w
        → P
            (network_clusters platform namespace name slice_subnet cluster_cidr types m label
              clusters w).1
    unfolding network_clusters
    network_clusters_keeps [] label w h = h
    network_clusters_keeps (cluster ∷ rest) label w h =
        go (network_clusters_keeps rest)
          (get_resource_if_exist platform.worker_slice_configs
            (key_of_worker platform namespace name cluster) w)
          refl
      where
        pool : Outcome String
        pool = get_cluster_prefix_pool slice_subnet (octet_in m cluster) cluster_cidr

        write : Option WorkerSliceConfig → String → M W (Map String)
        write found subnet =
            write_network platform namespace name slice_subnet cluster_cidr types label cluster
              (octet_in m cluster) subnet found

        later : Map String → M W (Map String)
        later =
            λ l. network_clusters platform namespace name slice_subnet cluster_cidr types m l rest

        in_pool :
            ((l : Map String) (v : W) → P v → P (later l v).1)
            → (found : Option WorkerSliceConfig)
            → get_resource_if_exist platform.worker_slice_configs
                (key_of_worker platform namespace name cluster)
                w
              ≡ ok found
            → (r : Outcome String) → P (resume (r, w) (λ subnet. write found subnet >>= later)).1
        in_pool rests found e (ok subnet) =
            >>=_keeps P (write found subnet) later w
              (write_network_keeps label cluster subnet found w e h) rests
        in_pool rests found e (err x) = h
        in_pool rests found e panic = h

        go :
            ((l : Map String) (v : W) → P v → P (later l v).1)
            → (r : Outcome (Option WorkerSliceConfig))
            → get_resource_if_exist platform.worker_slice_configs
                (key_of_worker platform namespace name cluster)
                w
              ≡ r
            → P
                (resume
                  (r, w)
                  (λ found. asks (λ u. pool) >>= λ subnet. write found subnet >>= later)).1
        go rests (ok found) e = in_pool rests found e pool
        go rests (err x) e = h
        go rests panic e = h
