-- ===== src/DefaultSlices/Operations/Lacking.antt =====
-- A cluster without free namespaces (DefaultSliceOperations of service/default_slice_service.go).
use kubeslice_controller.Common.{
  ℕ, zero, suc, String, ◌≡◌, refl, sym, ap, ◌∙◌, Bool, true, false, ◌||◌, List, [], ◌∷◌, Option,
  none, some, Map, length, get_elem?, contains, All, ◌==◌, arith,
}
use kubeslice_controller.Go.{ok}
use kubeslice_controller.Resources.Slice.{SliceConfig, SliceNamespaceSelection}
use kubeslice_controller.Resources.Cluster.{Cluster, NamespacesConfig}
use kubeslice_controller.Platform.{Platform}
use kubeslice_controller.Util.Reconciliation.{done}
use kubeslice_controller.DefaultSlices.Additions.{
  namespace_to_cluster_map, namespace_index_map, is_new, add_if, add_namespaces,
}
use kubeslice_controller.DefaultSlices.Removals.{
  Scan, meet_if, scan_at, scan_clusters, retain_namespaces,
}
use kubeslice_controller.DefaultSlices.Operations.{
  namespaces_of, added_by, in_default_slice, add_or_remove, with_cluster, update_default_slice,
}

add_namespaces-none :
    (cluster : String) (known : List String) (indices : Map ℕ) (namespaces : List NamespacesConfig)
    (state : List SliceNamespaceSelection × Bool)
    → All (λ ns. is_new cluster known indices ns ≡ false) namespaces
    → add_namespaces cluster known indices namespaces state ≡ state
unfolding add_namespaces
add_namespaces-none cluster known indices [] state h = refl
add_namespaces-none cluster known indices (ns ∷ rest) state h =
    ap (λ b. add_namespaces cluster known indices rest (add_if cluster known indices b ns state))
      h.0
    ∙ add_namespaces-none cluster known indices rest state h.1

other_element :
    (xs : List String) (s : String) (index : ℕ) (x : String)
    → contains xs s ≡ false
    → get_elem? xs index ≡ some x
    → x == s ≡ false
other_element [] s index x h e = cc
other_element (y ∷ ys) s zero x h e =
    let same : y ≡ x = cc in ap (λ t. t == s) (sym same) ∙ ground (arith, h)
other_element (y ∷ ys) s (suc index) x h e = other_element ys s index x (ground (arith, h)) e

module _ (requested removed : String) where
  scan_at-absent :
      (present : Bool) (o : Option String) (scan : Scan)
      → ((x : String) → o ≡ some x → x == requested ≡ false)
      → scan_at requested removed present o scan ≡ scan
  scan_at-absent present none scan h = refl
  scan_at-absent present (some x) scan h =
      ap (λ b. meet_if requested removed b present scan) (h x refl)

  scan_clusters-absent :
      (present : Bool) (rounds index : ℕ) (scan : Scan)
      → contains scan.clusters.array requested ≡ false
      → scan_clusters requested removed present rounds index scan ≡ scan
  unfolding scan_clusters
  scan_clusters-absent present zero index scan h = refl
  scan_clusters-absent present (suc rounds) index scan h =
      ap (scan_clusters requested removed present rounds (suc index)) (
        scan_at-absent present (get_elem? scan.clusters.array index) scan
          (λ x e. other_element scan.clusters.array requested index x h e))
      ∙ scan_clusters-absent present rounds (suc index) scan h

  -- No namespace is removed for a cluster that is in none.
  retain_namespaces-absent :
      (present : String → Bool) (namespaces : List SliceNamespaceSelection)
      → All (λ appns. contains appns.clusters requested ≡ false) namespaces
      → (retain_namespaces requested removed present namespaces).1 ≡ false
  unfolding retain_namespaces
  retain_namespaces-absent present [] h = refl
  retain_namespaces-absent present (appns ∷ rest) h =
      ap (λ b. b || (retain_namespaces requested removed present rest).1)
        (ap (λ scan. scan.removed)
          (scan_clusters-absent (present appns.namespace) (length appns.clusters) 0 _ h.0))
      ∙ retain_namespaces-absent present rest h.1

module _ {W : Type 0} (platform : Platform W) (namespace name default : String) (cluster : Cluster)
    (slice : SliceConfig) where
  -- Each namespace of the cluster is in a slice, or in the default slice for the cluster.
  abbrev HasNoNew : Type 0
  HasNoNew =
      All
        (λ (ns : NamespacesConfig).
          is_new cluster.metadata.name (namespace_to_cluster_map (namespaces_of slice))
            (namespace_index_map 0 [] (namespaces_of slice)) ns
          ≡ false)
        cluster.status.namespaces

  abbrev IsAbsent : Type 0
  IsAbsent =
      All (λ (appns : SliceNamespaceSelection). contains appns.clusters name ≡ false)
        (namespaces_of slice)

  settled :
      (added retained : List SliceNamespaceSelection × Bool) (w : W)
      → added.1 ≡ false
      → retained.1 ≡ false
      → add_or_remove platform namespace name cluster (with_cluster name slice) added retained w
        ≡ (ok done, w)
  settled (xs, true) (ys, b) w h k = cc
  settled (xs, false) (ys, true) w h k = cc
  settled (xs, false) (ys, false) w h k = refl

  -- Where each namespace of a cluster is in a slice, or in the default slice for this cluster already, and
  -- no namespace of the default slice names the cluster, the default slice is not written: a new cluster
  -- with no free namespace does not join it.
  pub update_default_slice-lacking :
      (w : W)
      → HasNoNew
      → IsAbsent
      → update_default_slice platform namespace name default cluster slice w ≡ (ok done, w)
  unfolding update_default_slice added_by
  update_default_slice-lacking w none_new absent =
      settled _ _ w
        (ap (λ (r : List SliceNamespaceSelection × Bool). r.1)
          (add_namespaces-none cluster.metadata.name _ _ cluster.status.namespaces
            (namespaces_of slice, false) none_new))
        (retain_namespaces-absent name cluster.metadata.name (in_default_slice default cluster)
          (namespaces_of slice) absent)
