-- ===== src/Gateways/Creation/HalfMade.antt =====
-- A pair of gateways of which only the server is there (service/worker_slice_gateway_service.go).
use kubeslice_controller.Common.{String, ◌≡◌, refl, ◌∙◌, Map, Option, none, some}
use kubeslice_controller.Go.{already_exists, api, Outcome, ok, err}
use kubeslice_controller.Resources.Meta.{Key}
use kubeslice_controller.Resources.Cluster.{Cluster}
use kubeslice_controller.Resources.Worker.{WorkerSliceGateway}
use kubeslice_controller.Platform.{Platform, get_resource_if_exist, create_resource}
use kubeslice_controller.Platform.Reporting.{Notice, notify, create_reported}
use kubeslice_controller.Gateways.Addresses.{NetworkAddresses}
use kubeslice_controller.Gateways.Certs.{gateway_kind, JobSettings}
use kubeslice_controller.Gateways.Pairs.{
  PairSpec, server_object, server_name, client_name, create_gateway, create_pair,
  create_minimum_gateway_pair_if_not_exists,
}

module _ (pair : PairSpec) (source destination : Cluster) (addresses : NetworkAddresses)
    {W : Type 0} (platform : Platform W) (settings : JobSettings) where
  -- What the server answers of a gateway of the pair.
  abbrev answer_of : String → W → Outcome (Option WorkerSliceGateway)
  answer_of name =
      get_resource_if_exist platform.worker_slice_gateways
        (record { namespace = pair.namespace; name = name })

  -- The server gateway is there, and the client gateway is not.
  abbrev pub IsHalfMade : W → Type 0
  IsHalfMade w =
      ((server : WorkerSliceGateway) × (answer_of (server_name pair source destination addresses) w
          ≡ ok (some server)))
      × (answer_of (client_name pair source destination addresses) w ≡ ok none)

  module _
      (conflicts : (gateway found : WorkerSliceGateway) (w : W)
        → get_resource_if_exist platform.worker_slice_gateways
            (record { namespace = gateway.metadata.namespace; name = gateway.metadata.name })
            w
          ≡ ok (some found)
        → create_resource platform.worker_slice_gateways gateway w ≡ (err (api already_exists), w))
      (notices : (notice : Notice) (name : String) (key : Key) (w : W)
        → get_resource_if_exist platform.worker_slice_gateways key
            (notify platform gateway_kind notice name w)
          ≡ get_resource_if_exist platform.worker_slice_gateways key w) where
    failure : Notice
    failure = record { event = "EventWorkerSliceGatewayCreationFailed"; action = "creation_failed" }

    create_pair-conflict :
        (label : Map String) (server : WorkerSliceGateway) (w : W)
        → answer_of (server_name pair source destination addresses) w ≡ ok (some server)
        → create_pair pair source destination addresses platform settings label w ≡ (
          err (api already_exists),
          notify platform gateway_kind failure (server_name pair source destination addresses) w,
        )
    unfolding create_pair create_gateway create_reported server_object failure
    create_pair-conflict label server w here =
        rw (conflicts (server_object pair source destination addresses label) server w here) refl

    run_of_half :
        (label : Map String) (w : W)
        → IsHalfMade w
        → create_minimum_gateway_pair_if_not_exists pair source destination addresses platform
            settings label w
          ≡ (
            err (api already_exists),
            notify platform gateway_kind failure (server_name pair source destination addresses) w,
          )
    unfolding create_minimum_gateway_pair_if_not_exists
    run_of_half label w ((server, here), gone) =
        rw (here, gone) (create_pair-conflict label server w here)

    -- A pair of which the server gateway is there and the client gateway is not is never completed, where
    -- the API server refuses to create a gateway whose name is taken and reports change no gateway:
    -- createMinimumGateWayPairIfNotExists ends with AlreadyExists, and leaves the pair as it was, so that
    -- the next run ends in the same way.
    pub create_minimum_gateway_pair_if_not_exists-IsHalfMade :
        (label : Map String) (w : W)
        → IsHalfMade w
        → ((create_minimum_gateway_pair_if_not_exists pair source destination addresses platform
              settings label w).0
            ≡ err (api already_exists))
          × IsHalfMade
              (create_minimum_gateway_pair_if_not_exists pair source destination addresses platform
                settings label w).1
    create_minimum_gateway_pair_if_not_exists-IsHalfMade label w half =
        let ((server, here), gone) = half in
        rw (run_of_half label w half)
          (refl, ((server, notices failure _ _ w ∙ here), notices failure _ _ w ∙ gone))
