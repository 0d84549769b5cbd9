-- ===== src/ServiceDiscovery/Exports/Kept.antt =====
-- That the imports of a service outlive one of its exports (service/service_export_config_service.go).
use kubeslice_controller.Common.{
  ℕ, zero, suc, String, ◌≡◌, ◌≢◌, refl, sym, subst, false, List, [], ◌∷◌, Option, none, some,
  get_elem?, ◌==◌, eq_iff, arith,
}
use kubeslice_controller.Go.{ApiError, Outcome, ok, err, panic}
use kubeslice_controller.Go.Effect.{resume}
use kubeslice_controller.Resources.Slice.{ServiceExportConfig}
use kubeslice_controller.Resources.Worker.{WorkerServiceImport}
use kubeslice_controller.Platform.{Platform, answer, update_resource}
use kubeslice_controller.Platform.Reporting.{each_keeps}
use kubeslice_controller.ServiceDiscovery.Imports.{
  lookup_service_export_for_service, list_worker_service_import, touched_import,
  force_reconciliation,
}
use kubeslice_controller.ServiceDiscovery.Exports.{
  is_last, release, or_nothing, ignored, get_owner_labels_for_service_export,
  clean_up_service_export_config_resources,
}

is_last-other :
    (export other : ServiceExportConfig) (exports : List ServiceExportConfig) (i : ℕ)
    → get_elem? exports i ≡ some other
    → other.spec.source_cluster ≢ export.spec.source_cluster
    → is_last export exports ≡ false
is_last-other export other [] i here apart = cc
is_last-other export other (only ∷ []) zero here apart =
    let same : only ≡ other = cc in
    subst
      (λ (o : ServiceExportConfig). (o.spec.source_cluster == export.spec.source_cluster) ≡ false)
      (sym same)
      (ground (arith, eq_iff other.spec.source_cluster export.spec.source_cluster, apart))
is_last-other export other (only ∷ []) (suc i) here apart = cc
is_last-other export other (one ∷ two ∷ rest) i here apart = refl

module _ {W : Type 0} (platform : Platform W) (P : W → Type 0)
    (updates : (imported : WorkerServiceImport) (w : W)
      → P w
      → P (platform.worker_service_imports.update imported w).1) where
  update_keeps :
      (imported : WorkerServiceImport) (w : W)
      → P w
      → P (update_resource platform.worker_service_imports imported w).1
  unfolding update_resource
  update_keeps imported w h =
      go (platform.worker_service_imports.update imported w) (updates imported w h)
    where
      go : (r : Option ApiError × W) → P r.1 → P (answer platform.worker_service_imports r).1
      go (none, v) k = k
      go (some e, v) k = k

  force_reconciliation_keeps :
      (imported : List WorkerServiceImport) (w : W)
      → P w
      → P (force_reconciliation platform imported w).1
  unfolding force_reconciliation
  force_reconciliation_keeps imported w h =
      each_keeps P
        (λ i v.
          update_resource platform.worker_service_imports (touched_import (platform.now v) i) v)
        (λ i v k. update_keeps (touched_import (platform.now v) i) v k) imported w h

  release_keeps :
      (export : ServiceExportConfig) (namespace : String) (w : W)
      → P w
      → P (release platform export namespace false w).1
  release_keeps export namespace w h = go (
      list_worker_service_import platform (get_owner_labels_for_service_export export)
        export.metadata.namespace w)
    where
      after : (r : Outcome (Unit {0}) × W) → P r.1 → P (ignored platform r).1
      after (ok u, v) k = k
      after (err e, v) k = k
      after (panic, v) k = k

      go :
          (r : Outcome (List WorkerServiceImport))
          → P
              (resume
                (or_nothing platform r, w)
                (λ imported v. ignored platform (force_reconciliation platform imported v))).1
      go (ok imported) =
          after (force_reconciliation platform imported w) (force_reconciliation_keeps imported w h)
      go (err e) = after (force_reconciliation platform [] w) (force_reconciliation_keeps [] w h)
      go panic = h

  -- Where an export of another cluster stands among the exports of the service that are left, the clean-up
  -- of an export keeps whatever updates of imports keep: it deletes no import and writes nothing but
  -- updates of imports.
  pub clean_up_service_export_config_resources_keeps :
      (export : ServiceExportConfig) (namespace : String) (exports : List ServiceExportConfig)
      (i : ℕ) (other : ServiceExportConfig) (w : W)
      → lookup_service_export_for_service platform export.metadata.namespace
          export.spec.service_name export.spec.service_namespace export.spec.slice_name w
        ≡ ok exports
      → get_elem? exports i ≡ some other
      → other.spec.source_cluster ≢ export.spec.source_cluster
      → P w
      → P (clean_up_service_export_config_resources platform export namespace w).1
  unfolding clean_up_service_export_config_resources
  clean_up_service_export_config_resources_keeps export namespace exports i other w found here apart
        h =
      rw (found, is_last-other export other exports i here apart)
        (release_keeps export namespace w h)
