-- ===== src/Resources/Rotation.antt =====
-- apis/controller/v1alpha1/vpnkeyrotation_types.go
use kubeslice_controller.Common.{ℕ, String, Option, List, Map}
use kubeslice_controller.Resources.Meta.{ObjectMeta}

-- Times are numbers of seconds, `none` is nil (`IsZero` holds of it).
pub record VpnKeyRotationSpec : Type 0 where
  pub slice_name : String
  pub cluster_gateway_mapping : Map (List String)
  pub certificate_creation_time : Option ℕ
  pub certificate_expiry_time : Option ℕ
  pub rotation_interval : ℕ
  pub clusters : List String
  pub rotation_count : ℕ

pub record StatusOfKeyRotation : Type 0 where
  pub status : String

pub record VpnKeyRotation : Type 0 where
  pub metadata : ObjectMeta
  pub spec : VpnKeyRotationSpec
  pub current_rotation_state : Map StatusOfKeyRotation

abbrev pub complete : String
complete = "COMPLETE"
