-- ===== src/Webhooks/QosConfigs.antt =====
-- service/slice_qos_config_webhook_validation.go
use kubeslice_controller.Common.{
  String, true, false, not, Bool, List, [], ◌∷◌, Option, none, some, contains, ltb, if◌then◌else◌,
}
use kubeslice_controller.Go.{invalid, forbidden, Outcome, ok, err, reject_if, field, ◌>>=◌, ◌>>◌}
use kubeslice_controller.Go.Text.{◌<>◌, join}
use kubeslice_controller.Resources.Meta.{Namespace}
use kubeslice_controller.Resources.Slice.{SliceQosConfig}
use kubeslice_controller.Resources.Worker.{WorkerSliceConfig}
use kubeslice_controller.Platform.{Platform, exists?, list_resources}
use kubeslice_controller.Util.Projects.{check_for_project_namespace}

-- validateSliceQosConfigSpec
unfoldable validate_slice_qos_config_spec : SliceQosConfig → Outcome (Unit {0})
validate_slice_qos_config_spec config =
    reject_if (ltb config.spec.bandwidth_ceiling_kbps config.spec.bandwidth_guaranteed_kbps) (
      invalid "Spec.BandwidthGuaranteedKbps"
        "BandwidthGuaranteedKbps cannot be greater than BandwidthCeilingKbps")

abbrev qos_config_in_project : Option Namespace → Outcome (Unit {0})
qos_config_in_project none =
    err (field (invalid "metadata.namespace" "SliceQosConfig must be applied on project namespace"))
qos_config_in_project (some namespace) =
    reject_if (not (check_for_project_namespace namespace))
      (invalid "metadata.namespace" "SliceQosConfig must be applied on project namespace")

-- The names of the slices of worker slices, each once.
unfoldable slices_seen : (seen : List String) → List WorkerSliceConfig → List String
slices_seen seen [] = []
slices_seen seen (worker ∷ rest) =
    let name = worker.spec.slice_name in
    let new = name ∷ slices_seen (name ∷ seen) rest in
    let old = slices_seen seen rest in if contains seen name then old else new

module _ {W : Type 0} (platform : Platform W) (w : W) (config : SliceQosConfig) where
  -- validateSliceQosConfigAppliedInProjectNamespace
  unfoldable validate_slice_qos_config_applied_in_project_namespace : Outcome (Unit {0})
  validate_slice_qos_config_applied_in_project_namespace =
      qos_config_in_project (
        exists? platform.namespaces (record { namespace = ""; name = config.metadata.namespace }) w)

  -- ValidateSliceQosConfigCreate
  unfoldable validate_slice_qos_config_create : Outcome (Unit {0})
  validate_slice_qos_config_create = do
    validate_slice_qos_config_applied_in_project_namespace
    validate_slice_qos_config_spec config

  abbrev slices_using : List WorkerSliceConfig → Outcome (Bool × List String)
  slices_using [] = ok (false, [])
  slices_using (worker ∷ rest) = ok (true, slices_seen [] (worker ∷ rest))

  -- validateIfQosExistsOnAnySlice
  unfoldable validate_if_qos_exists_on_any_slice : Outcome (Bool × List String)
  validate_if_qos_exists_on_any_slice =
      list_resources platform.worker_slice_configs
        (("standard-qos-profile", config.metadata.name) ∷ []) (some config.metadata.namespace) w
      >>= slices_using

  abbrev refuse_if_used : Bool × List String → Outcome (Unit {0})
  refuse_if_used (used, slices) = reject_if used (
      forbidden "SliceQoSConfig" (
        "The SliceQoSProfile "
        <> config.metadata.name
        <> " cannot be deleted. It is present on slices [ "
        <> join slices ","
        <> " ]"))

  -- ValidateSliceQosConfigDelete
  unfoldable validate_slice_qos_config_delete : Outcome (Unit {0})
  unfolding validate_if_qos_exists_on_any_slice
  validate_slice_qos_config_delete = validate_if_qos_exists_on_any_slice >>= refuse_if_used

-- ValidateSliceQosConfigUpdate
unfoldable validate_slice_qos_config_update : SliceQosConfig → Outcome (Unit {0})
validate_slice_qos_config_update config = validate_slice_qos_config_spec config
