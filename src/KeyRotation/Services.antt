-- ===== src/KeyRotation/Services.antt =====
-- What the rotation calls of the two other services, IWorkerSliceGatewayService and
-- IWorkerSliceConfigService, which it has as interfaces; and its own state.
use kubeslice_controller.Common.{ℕ, String, Bool, List, Map}
use kubeslice_controller.Go.{Outcome}
use kubeslice_controller.Go.Effect.{M}
use kubeslice_controller.Resources.Slice.{SliceConfig}
use kubeslice_controller.Gateways.Addresses.{NetworkAddresses}
use kubeslice_controller.Resources.Worker.{WorkerSliceConfig, WorkerSliceGateway}

pub record Services (W : Type 0) : Type 0 where
  -- ListWorkerSliceConfigs with the owner label of the slice.
  pub list_worker_slice_configs : SliceConfig → W → Outcome (List WorkerSliceConfig)
  pub build_network_addresses :
      (slice_subnet source destination : String)
      → Map ℕ
      → (cluster_cidr : String) → Outcome NetworkAddresses
  pub generate_certs :
      (slice_name namespace gateway_protocol : String)
      → (server client : WorkerSliceGateway) → NetworkAddresses
      → M W (Unit {0})

-- The service's state: the API server and the flag `jobCreationInProgress`, one for all slices.
pub record World (W : Type 0) : Type 0 where
  pub api : W
  pub job_creation_in_progress : Bool
