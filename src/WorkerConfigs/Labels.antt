-- ===== src/WorkerConfigs/Labels.antt =====
-- The label map after the creation of worker slices (service/worker_slice_config_service.go).
use kubeslice_controller.Common.{
  ℕ, String, ◌≡◌, refl, sym, ap, subst, ◌∙◌, true, List, [], ◌∷◌, Option, none, some, Map, lookup,
  insert, lookup-insert, get_or, contains, eq_refl, arith, ◌⊎◌, inl, inr,
}
use kubeslice_controller.Go.{ok}
use kubeslice_controller.Go.Effect.{pure, ◌>>=◌, asks, resume-ok, returned}
use kubeslice_controller.Go.Text.{◌<>◌}
use kubeslice_controller.Resources.Slice.{SliceGatewayServiceType}
use kubeslice_controller.Resources.Worker.{WorkerSliceConfig}
use kubeslice_controller.Platform.{Platform, get_resource_if_exist}
use kubeslice_controller.Util.Ipam.{get_cluster_prefix_pool}
use kubeslice_controller.WorkerConfigs.Octets.{compute_cluster_map}
use kubeslice_controller.WorkerConfigs.Cleanup.{clean_up_slices, list_worker_slice_configs}
use kubeslice_controller.WorkerConfigs.Minimal.{
  create_minimal_worker_slice_config, with_labels, with_subnet, with_network, new_worker_slice,
  type_of_entry, protocol_of_entry, touched, write_network, network_clusters, create_worker_slice,
  update_worker_slice, key_of_worker,
}

-- The map is as it was given, or it is restricted to one cluster.
abbrev pub IsLabelled : Map String → List String → Map String → Type 0
IsLabelled label clusters label' =
    (label' ≡ label)
    ⊎ ((cluster : String) × (contains clusters cluster ≡ true)
        × (lookup "worker-cluster" label' ≡ some cluster))

with_labels-cluster :
    (namespace name cluster : String) (label : Map String)
    → lookup "worker-cluster" (with_labels namespace name cluster label) ≡ some cluster
with_labels-cluster namespace name cluster label =
    simp
      (
        lookup-insert "kubeslice-manager" "worker-cluster" "controller" (
            insert "worker-cluster" cluster
              (insert "original-slice-name" name (insert "project-namespace" namespace label))),
        lookup-insert "worker-cluster" "worker-cluster" cluster
            (insert "original-slice-name" name (insert "project-namespace" namespace label)),
      )
      refl

module _ {W : Type 0} (platform : Platform W) (namespace name slice_subnet cluster_cidr : String)
    (types : Map SliceGatewayServiceType) where
  write_network-IsLabelled :
      (label : Map String) (cluster : String) (octet : ℕ) (subnet : String)
      (found : Option WorkerSliceConfig) (label' : Map String) (w w' : W)
      → write_network platform namespace name slice_subnet cluster_cidr types label cluster octet
          subnet found w
        ≡ (ok label', w')
      → (label' ≡ label) ⊎ (lookup "worker-cluster" label' ≡ some cluster)
  unfolding write_network
  write_network-IsLabelled label cluster octet subnet none label' w w' h =
      let labels = with_labels namespace name cluster label in
      let entry = lookup cluster types in
      let new =
        with_subnet
          (with_network (new_worker_slice (name <> "-" <> cluster) namespace labels name) octet
            subnet (type_of_entry entry) (protocol_of_entry entry))
          slice_subnet in
      inr (
        ap (lookup "worker-cluster") (sym (returned (create_worker_slice platform new) labels w h))
        ∙ with_labels-cluster namespace name cluster label)
  write_network-IsLabelled label cluster octet subnet (some found) label' w w' h =
      let entry = lookup cluster types in
      let new =
        touched (platform.now w)
          (with_network found octet subnet (type_of_entry entry) (protocol_of_entry entry)) in
      inl (sym (returned (update_worker_slice platform new) label w h))

  widen :
      (label mid label' : Map String) (cluster : String) (rest : List String)
      → (mid ≡ label) ⊎ (lookup "worker-cluster" mid ≡ some cluster)
      → IsLabelled mid rest label'
      → IsLabelled label (cluster ∷ rest) label'
  widen label mid label' cluster rest (inl e) (inl k) = inl (k ∙ e)
  widen label mid label' cluster rest (inr e) (inl k) =
      inr (cluster, ground (arith, eq_refl cluster), ap (lookup "worker-cluster") k ∙ e)
  widen label mid label' cluster rest first (inr (c, here, k)) = inr (c, ground (arith, here), k)

  -- The loop over the clusters.
  network_clusters-IsLabelled :
      (cluster_map : Map ℕ) (label : Map String) (clusters : List String) (label' : Map String)
      (w w' : W)
      → network_clusters platform namespace name slice_subnet cluster_cidr types cluster_map label
          clusters w
        ≡ (ok label', w')
      → IsLabelled label clusters label'
  unfolding network_clusters
  network_clusters-IsLabelled cluster_map label [] label' w w' h = inl (cc)
  network_clusters-IsLabelled cluster_map label (cluster ∷ rest) label' w w' h =
      let octet = get_or (lookup cluster cluster_map) 0 in
      let later = λ (l : Map String).
        network_clusters platform namespace name slice_subnet cluster_cidr types cluster_map l
          rest in
      let write = λ (found : Option WorkerSliceConfig) (subnet : String).
        write_network platform namespace name slice_subnet cluster_cidr types label cluster octet
          subnet found in
      let pool = λ (u : W). get_cluster_prefix_pool slice_subnet octet cluster_cidr in
      let (found, v, e, h2) =
        resume-ok
          (asks (
            get_resource_if_exist platform.worker_slice_configs
              (key_of_worker platform namespace name cluster)))
          (λ found. asks pool >>= λ subnet. write found subnet >>= later) h in
      let (subnet, v2, e2, h3) =
        resume-ok (asks pool) (λ subnet. write found subnet >>= later) h2 in
      let (mid, v3, e3, h4) = resume-ok (write found subnet) later h3 in
      widen label mid label' cluster rest
        (write_network-IsLabelled label cluster (get_or (lookup cluster cluster_map) 0) subnet found
          mid v2 v3 e3)
        (network_clusters-IsLabelled cluster_map mid rest label' v3 w' h4)

  pair_returned :
      (octets m : Map ℕ) (l label' : Map String) (w w' : W)
      → pure {W = W} {A = Map ℕ × Map String} (octets, l) w ≡ (ok (m, label'), w')
      → l ≡ label'
  pair_returned octets m l label' w w' h = cc

  -- Where CreateMinimalWorkerSliceConfig returns, its caller's label map is as it was, or its label
  -- worker-cluster names one cluster of the slice.
  pub create_minimal_worker_slice_config-IsLabelled :
      (clusters : List String) (label : Map String) (m : Map ℕ) (label' : Map String) (w w' : W)
      → create_minimal_worker_slice_config platform namespace name slice_subnet cluster_cidr types
          clusters label w
        ≡ (ok (m, label'), w')
      → IsLabelled label clusters label'
  unfolding create_minimal_worker_slice_config
  create_minimal_worker_slice_config-IsLabelled clusters label m label' w w' h =
      let last =
        λ (octets : Map ℕ) (l : Map String). pure {W = W} {A = Map ℕ × Map String} (octets, l) in
      let loop = λ (octets : Map ℕ).
        network_clusters platform namespace name slice_subnet cluster_cidr types octets label
          clusters in
      let computed =
        λ (configs : List WorkerSliceConfig) (u : W). compute_cluster_map clusters configs in
      let listed = asks (list_worker_slice_configs platform label namespace) in
      let (u, v1, e1, h1) =
        resume-ok (clean_up_slices platform label namespace clusters)
          (λ t.
            listed >>= λ configs. asks (computed configs) >>= λ octets. loop octets >>= last octets)
          h in
      let (configs, v2, e2, h2) =
        resume-ok listed
          (λ configs. asks (computed configs) >>= λ octets. loop octets >>= last octets) h1 in
      let (octets, v3, e3, h3) =
        resume-ok (asks (computed configs)) (λ octets. loop octets >>= last octets) h2 in
      let (l, v4, e4, h4) = resume-ok (loop octets) (last octets) h3 in
      let same : l ≡ label' = pair_returned octets m l label' v4 w' h4 in
      subst (IsLabelled label clusters) same
        (network_clusters-IsLabelled octets label clusters l v3 v4 e4)
