-- ===== src/WorkerConfigs/Cleanup.antt =====
-- Deletion of worker slices (service/worker_slice_config_service.go).
use kubeslice_controller.Common.{
  String, ◌≡◌, true, false, List, [], ◌∷◌, Option, none, some, Map, contains, Bool-cases, inl, inr,
}
use kubeslice_controller.Go.{ApiError, Outcome, ok, err, panic}
use kubeslice_controller.Go.Effect.{M, ◌>>=◌, pure, asks, each, resume}
use kubeslice_controller.Resources.Worker.{WorkerSliceConfig}
use kubeslice_controller.Platform.{Platform, answer, list_resources, delete_resource}
use kubeslice_controller.WorkerConfigs.Octets.{cluster_of}

module _ {W : Type 0} (platform : Platform W) where
  -- RecordEvent and RecordCounterMetric for a worker slice.
  abbrev pub report : (event action object_name : String) → W → W
  report event action object_name w =
      platform.record_metric
        (record {
          action = action;
          event = event;
          object_name = object_name;
          object_kind = "worker_slice_config";
        })
        (platform.record_event event object_name w)

  -- ListWorkerSliceConfigs
  unfoldable pub list_worker_slice_configs :
      Map String → String → W → Outcome (List WorkerSliceConfig)
  list_worker_slice_configs label namespace w =
      list_resources platform.worker_slice_configs label (some namespace) w

  abbrev after_delete : WorkerSliceConfig → Outcome (Unit {0}) × W → Outcome (Unit {0}) × W
  after_delete slice (ok u, w) =
      (ok tt, report "EventWorkerSliceConfigDeleted" "deleted" slice.metadata.name w)
  after_delete slice (err e, w) =
      (err e, report "EventWorkerSliceConfigDeletionFailed" "deletion_failed" slice.metadata.name w)
  after_delete slice (panic, w) = (panic, w)

  -- The deletion of one worker slice with its reports.
  unfoldable delete_worker_slice_config : WorkerSliceConfig → M W (Unit {0})
  delete_worker_slice_config slice w =
      after_delete slice (delete_resource platform.worker_slice_configs slice w)

  -- DeleteWorkerSliceConfigByLabel
  unfoldable pub delete_worker_slice_config_by_label : Map String → String → M W (Unit {0})
  unfolding list_worker_slice_configs delete_worker_slice_config
  delete_worker_slice_config_by_label label namespace = do
    slices ← asks (list_worker_slice_configs label namespace)
    each slices delete_worker_slice_config

  -- The body of the loop of cleanUpSlices.
  unfoldable clean_up_slice : List String → WorkerSliceConfig → M W (Unit {0})
  unfolding delete_worker_slice_config
  clean_up_slice clusters slice = elim (contains clusters (cluster_of slice)) [
    | true ↦ pure tt
    | false ↦ delete_worker_slice_config slice
  ]

  -- cleanUpSlices
  unfoldable pub clean_up_slices : Map String → String → List String → M W (Unit {0})
  unfolding list_worker_slice_configs clean_up_slice
  clean_up_slices label namespace clusters = do
    slices ← asks (list_worker_slice_configs label namespace)
    each slices (clean_up_slice clusters)

  -- What reports and the deletion of worker slices of other clusters leave true of the API server.
  pub record IsKept (P : W → Type 0) (clusters : List String) : Type 0 where
    pub reports : (event action name : String) (w : W) → P w → P (report event action name w)
    pub deletions :
        (slice : WorkerSliceConfig) (w : W)
        → contains clusters (cluster_of slice) ≡ false
        → P w
        → P (platform.worker_slice_configs.delete slice w).1

  module _ (P : W → Type 0) (clusters : List String) (kept : IsKept P clusters) where
    delete_keeps :
        (slice : WorkerSliceConfig) (w : W)
        → contains clusters (cluster_of slice) ≡ false
        → P w
        → P (delete_worker_slice_config slice w).1
    unfolding delete_worker_slice_config delete_resource
    delete_keeps slice w out h =
        go (platform.worker_slice_configs.delete slice w) (kept.deletions slice w out h)
      where
        go :
            (r : Option ApiError × W)
            → P r.1
            → P (after_delete slice (answer platform.worker_slice_configs r)).1
        go (none, v) k = kept.reports _ _ _ v k
        go (some e, v) k = kept.reports _ _ _ v k

    clean_up_slice_keeps :
        (slice : WorkerSliceConfig) (w : W) → P w → P (clean_up_slice clusters slice w).1
    unfolding clean_up_slice
    clean_up_slice_keeps slice w h = elim (Bool-cases (contains clusters (cluster_of slice))) [
      | inl here ↦ rw (clean_up_slice, here) h
      | inr out ↦ rw (clean_up_slice, out) (delete_keeps slice w out h)
    ]

    loop_keeps :
        (slices : List WorkerSliceConfig) (w : W)
        → P w
        → P (each slices (clean_up_slice clusters) w).1
    unfolding each
    loop_keeps [] w h = h
    loop_keeps (slice ∷ slices) w h =
        go (loop_keeps slices) (clean_up_slice clusters slice w) (clean_up_slice_keeps slice w h)
      where
        go :
            ((v : W) → P v → P (each slices (clean_up_slice clusters) v).1)
            → (r : Outcome (Unit {0}) × W) → P r.1
            → P (resume r (λ _. each slices (clean_up_slice clusters))).1
        go later (ok u, v) k = later v k
        go later (err e, v) k = k
        go later (panic, v) k = k

    -- What reports and the deletion of worker slices of clusters that are not in the list leave true of the API
    -- server, cleanUpSlices leaves true, also where it ends with an error.
    pub clean_up_slices_keeps :
        (label : Map String) (namespace : String) (w : W)
        → P w
        → P (clean_up_slices label namespace clusters w).1
    unfolding clean_up_slices
    clean_up_slices_keeps label namespace w h = go (list_worker_slice_configs label namespace w)
      where
        go :
            (r : Outcome (List WorkerSliceConfig))
            → P (resume (r, w) (λ slices. each slices (clean_up_slice clusters))).1
        go (ok slices) = loop_keeps slices w h
        go (err e) = h
        go panic = h
