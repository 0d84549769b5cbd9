-- ===== src/Gateways/Certs.antt =====
-- GenerateCerts of service/worker_slice_gateway_service.go and CreateJob of service/job_service.go.
use kubeslice_controller.Common.{
  ◌*◌, String, true, false, List, [], ◌∷◌, ◌++◌, Option, none, some, Map, lookup, get_or, ◌==◌,
}
use kubeslice_controller.Go.{message, Outcome, ok, err, panic}
use kubeslice_controller.Go.Effect.{M, ◌>>=◌, asks}
use kubeslice_controller.Go.Text.{◌<>◌}
use kubeslice_controller.Resources.Meta.{named}
use kubeslice_controller.Resources.Slice.{SliceConfig, VpnConfiguration, WorkerSliceGatewayProvider}
use kubeslice_controller.Resources.Worker.{WorkerSliceGateway}
use kubeslice_controller.Platform.{Platform, get_resource_if_exist, create_resource}
use kubeslice_controller.Platform.Reporting.{Notice, reported}
use kubeslice_controller.Gateways.Addresses.{
  NetworkAddresses, CertPairRequestMap, build_cert_pair_request,
}

-- What the program reads from its environment and start-up flags, and its encoding of a request: JSON in
-- base64, by Go's libraries; the error is dropped.
pub record JobSettings : Type 0 where
  pub job_namespace : String
  pub job_image : String
  pub job_credential : String
  pub job_service_account : String
  pub log_level : String
  pub encode_to_base64 : CertPairRequestMap → String

-- The events of gateways; each is reported as one of the kind "worker_slice_gateway".
abbrev pub gateway_kind : String
gateway_kind = "worker_slice_gateway"

module _ {W : Type 0} (platform : Platform W) (settings : JobSettings) where
  abbrev pull_secrets : List String
  pull_secrets = elim (settings.job_credential == "") [
    | true ↦ []
    | false ↦ settings.job_credential ∷ []
  ]

  -- CreateJob
  unfoldable pub create_job : (job_namespace job_image : String) → Map String → M W (Unit {0})
  create_job job_namespace job_image variables = λ w.
      create_resource platform.jobs
        (record {
          metadata =
              named ("open-cert" <> "-" <> platform.new_uuid w) job_namespace
                (("SLICE_NAME", get_or (lookup "SLICE_NAME" variables) "") ∷ []);
          spec = record {
            ttl_seconds_after_finished = 60 * 60 * 24;
            backoff_limit = 2;
            image = job_image;
            environment = variables ++ (("LOG_LEVEL", settings.log_level) ∷ []);
            service_account_name = settings.job_service_account;
            image_pull_secrets = pull_secrets;
          };
          conditions = [];
          active = 0;
        })
        w

  abbrev cipher_of : Option VpnConfiguration → String
  cipher_of none = "AES-256-CBC"
  cipher_of (some config) = config.cipher

  -- The job's variables. A slice without a gateway provider is a nil pointer.
  abbrev variables_of :
      (slice_name namespace gateway_protocol : String)
      → (server client : WorkerSliceGateway) → CertPairRequestMap
      → SliceConfig
      → Option WorkerSliceGatewayProvider
      → Outcome (Map String)
  variables_of slice_name namespace gateway_protocol server client request slice none = panic
  variables_of slice_name namespace gateway_protocol server client request slice (some provider) =
      ok (
        ("NAMESPACE", namespace)
        ∷ ("GATEWAY_PROTOCOL", gateway_protocol)
        ∷ ("SERVER_SLICEGATEWAY_NAME", server.metadata.name)
        ∷ ("CLIENT_SLICEGATEWAY_NAME", client.metadata.name)
        ∷ ("SLICE_NAME", slice_name)
        ∷ ("CERT_GEN_REQUESTS", settings.encode_to_base64 request)
        ∷ ("GATEWAY_TYPE", provider.slice_gateway_type)
        ∷ ("VPN_CIPHER", cipher_of slice.spec.vpn_config)
        ∷ [])

  unfoldable environment_of :
      (slice_name namespace gateway_protocol : String)
      → (server client : WorkerSliceGateway) → NetworkAddresses
      → SliceConfig
      → Outcome (Map String)
  unfolding build_cert_pair_request
  environment_of slice_name namespace gateway_protocol server client addresses slice =
      variables_of slice_name namespace gateway_protocol server client
        (build_cert_pair_request slice_name server client addresses) slice
        slice.spec.slice_gateway_provider

  abbrev job_created : Notice
  job_created = record { event = "EventSliceGatewayJobCreated"; action = "job_created" }

  abbrev job_creation_failed : Notice
  job_creation_failed = record {
    event = "EventSliceGatewayJobCreationFailed";
    action = "job_creation_failed";
  }

  abbrev pub slice_or_error :
      (slice_name namespace : String) → Option SliceConfig → Outcome SliceConfig
  slice_or_error slice_name namespace (some slice) = ok slice
  slice_or_error slice_name namespace none =
      err (message ("sliceConfig for " <> slice_name <> " not found in " <> namespace <> "."))

  -- GenerateCerts
  unfoldable pub generate_certs :
      (slice_name namespace gateway_protocol : String)
      → (server client : WorkerSliceGateway) → NetworkAddresses
      → M W (Unit {0})
  unfolding environment_of create_job
  generate_certs slice_name namespace gateway_protocol server client addresses = do
    found ← asks (
        get_resource_if_exist platform.slice_configs
          (record { namespace = namespace; name = slice_name }))
    slice ← asks (λ w. slice_or_error slice_name namespace found)
    variables ←
        asks
          (λ w. environment_of slice_name namespace gateway_protocol server client addresses slice)
    (λ w.
        reported platform gateway_kind job_created job_creation_failed server.metadata.name
          (create_job settings.job_namespace settings.job_image variables w))
