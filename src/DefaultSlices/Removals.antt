-- ===== src/DefaultSlices/Removals.antt =====
-- The namespaces that the default slice drops for a cluster (DefaultSliceOperations and
-- DeregisterClusterFromDefaultSlice of service/default_slice_service.go). The arrays of clusters are
-- shared, as in Slices.Namespaces: what was appended to the new list shows the array as the whole loop
-- leaves it.
use kubeslice_controller.Common.{
  ℕ, zero, suc, String, Bool, true, false, ◌||◌, List, [], ◌∷◌, ◌++◌, map, Option, none, some,
  length, get_elem?, take, ltb, ◌==◌,
}
use kubeslice_controller.Resources.Slice.{SliceNamespaceSelection}
use kubeslice_controller.Slices.Namespaces.{Clusters, without, with_held}

-- The state of the loop over the clusters of one namespace: the array, the sizes of the slices over it that
-- were appended, foundClusterName and isNamespaceRemovedFromCluster.
pub record Scan : Type 0 where
  pub clusters : Clusters
  pub appended : List ℕ
  pub found_cluster : Bool
  pub removed : Bool

-- `appns.Clusters = RemoveElementFromArray(appns.Clusters, removed)` where more than one cluster is left.
abbrev shrink : Bool → String → Scan → Scan
shrink true name scan =
    let left = without name scan.clusters in
    record {
      clusters = left;
      appended = scan.appended ++ (left.size ∷ []);
      found_cluster = true;
      removed = true;
    }
shrink false name scan = record scan { found_cluster = true; removed = true }

-- The cluster is found: the namespace is still in it, or is not.
abbrev meet : (present : Bool) → String → Scan → Scan
meet true name scan = record scan {
  appended = scan.appended ++ (scan.clusters.size ∷ []);
  found_cluster = true;
}
meet false name scan = shrink (ltb 1 scan.clusters.size) name scan

module _ (requested removed : String) where
  abbrev pub meet_if : Bool → Bool → Scan → Scan
  meet_if true present scan = meet present removed scan
  meet_if false present scan = scan

  abbrev pub scan_at : Bool → Option String → Scan → Scan
  scan_at present none scan = scan
  scan_at present (some cluster) scan = meet_if (cluster == requested) present scan

  -- The loop, with as many rounds as the array has places.
  unfoldable pub scan_clusters : Bool → ℕ → ℕ → Scan → Scan
  scan_clusters present zero index scan = scan
  scan_clusters present (suc rounds) index scan =
      scan_clusters present rounds (suc index)
        (scan_at present (get_elem? scan.clusters.array index) scan)

  abbrev sizes_of : Bool → Scan → List ℕ
  sizes_of true scan = scan.appended
  sizes_of false scan = scan.appended ++ (scan.clusters.size ∷ [])

  -- What one namespace leaves in the new list.
  abbrev left_of : SliceNamespaceSelection → Scan → List SliceNamespaceSelection
  left_of appns scan =
      map (λ size. with_held [] (take size scan.clusters.array) appns)
        (sizes_of scan.found_cluster scan)

  abbrev scan_namespace : (String → Bool) → SliceNamespaceSelection → Scan
  scan_namespace present appns =
      scan_clusters (present appns.namespace) (length appns.clusters) 0 (record {
        clusters = record { array = appns.clusters; size = length appns.clusters };
        appended = [];
        found_cluster = false;
        removed = false;
      })

  -- The loop over the namespaces: modifiedDefaultSliceApplicationNamespace, and whether one was removed.
  unfoldable pub retain_namespaces :
      (String → Bool) → List SliceNamespaceSelection → List SliceNamespaceSelection × Bool
  unfolding scan_clusters
  retain_namespaces present [] = ([], false)
  retain_namespaces present (appns ∷ rest) =
      let scan = scan_namespace present appns in
      let others = retain_namespaces present rest in
      (left_of appns scan ++ others.0, scan.removed || others.1)
