-- ===== src/Gateways/Reconcile.antt =====
-- ReconcileWorkerSliceGateways of service/worker_slice_gateway_service.go.
use kubeslice_controller.Common.{
  String, Bool, true, false, List, [], ◌∷◌, Option, none, some, Map, insert, lookup, ◌==◌,
}
use kubeslice_controller.Go.{Outcome, ok, panic}
use kubeslice_controller.Go.Effect.{M, ◌>>=◌, ◌>>◌, pure, asks}
use kubeslice_controller.Go.Text.{◌<>◌}
use kubeslice_controller.Resources.Meta.{label}
use kubeslice_controller.Resources.Slice.{SliceConfig}
use kubeslice_controller.Resources.Worker.{WorkerSliceGateway}
use kubeslice_controller.Platform.{
  Platform, get_resource_if_exist, list_resources, update_resource, delete_resource,
}
use kubeslice_controller.Platform.Reporting.{notify, reported}
use kubeslice_controller.Util.Arrays.{contains_string}
use kubeslice_controller.Util.OwnerLabels.{get_owner_label}
use kubeslice_controller.Util.Reconciliation.{
  Result, done, Object, add_finalizer, remove_worker_finalizers,
}
use kubeslice_controller.SliceWebhook.Updates.{get_slice_gw_svc_types}
use kubeslice_controller.WorkerConfigs.Minimal.{type_of_entry, protocol_of_entry}
use kubeslice_controller.WorkerConfigs.Recreation.{touched_slice}
use kubeslice_controller.Gateways.Certs.{gateway_kind}
use kubeslice_controller.Gateways.Pairs.{server_gateway}
use kubeslice_controller.Gateways.Nodes.{reconcile_node_ip_and_node_port}
use kubeslice_controller.Gateways.Secrets.{delete_secret}

abbrev worker_slice_gateway_finalizer : String
worker_slice_gateway_finalizer = "worker.kubeslice.io/worker-slice-gateway-finalizer"

abbrev gateway_object : Object WorkerSliceGateway
gateway_object = record {
  metadata = λ gateway. gateway.metadata;
  with_finalizers = λ finalizers gateway. record gateway {
    metadata = record gateway.metadata { finalizers = finalizers };
  };
}

-- The cluster whose service type the slice's configuration gives: that of the server's side.
abbrev service_cluster : WorkerSliceGateway → String
service_cluster gateway = elim (gateway.spec.gateway_host_type == server_gateway) [
  | true ↦ label gateway.metadata "worker-cluster"
  | false ↦ label gateway.metadata "remote-cluster"
]

-- The fields that the reconciler sets. A slice without a gateway provider is a nil pointer.
unfoldable with_services : SliceConfig → WorkerSliceGateway → Outcome WorkerSliceGateway
with_services slice gateway = elim slice.spec.slice_gateway_provider [
  | none ↦ panic
  | some provider ↦
      let entry = lookup (service_cluster gateway) (get_slice_gw_svc_types slice) in
      ok (record gateway {
        spec = record gateway.spec {
          gateway_connectivity_type = type_of_entry entry;
          gateway_protocol = protocol_of_entry entry;
          gateway_type = provider.slice_gateway_type;
        };
      })
]

module _ {W : Type 0} (platform : Platform W) (namespace : String) where
  abbrev find_slice : String → M W (Option SliceConfig)
  find_slice slice_name = asks (
      get_resource_if_exist platform.slice_configs
        (record { namespace = namespace; name = slice_name }))

  -- The deletion of the first gateway that is listed, and of its secret.
  abbrev delete_first : List WorkerSliceGateway → M W (Unit {0})
  delete_first [] = pure tt
  delete_first (gateway ∷ rest) =
      delete_resource platform.worker_slice_gateways gateway
      >> delete_secret platform namespace gateway.metadata.name

  -- The owner label of a slice, with the two clusters of a gateway exchanged.
  abbrev pair_label : WorkerSliceGateway → SliceConfig → Map String
  pair_label gateway slice = insert "remote-cluster" (label gateway.metadata "worker-cluster") (
      insert "worker-cluster" (label gateway.metadata "remote-cluster")
        (get_owner_label ("SliceConfig-" <> slice.metadata.name)))

  -- A gateway that was deleted while its slice keeps the cluster: its pair goes too, and the slice is
  -- touched, so that both are made again.
  unfoldable recreate : WorkerSliceGateway → SliceConfig → M W (Unit {0})
  recreate gateway slice = do
    (λ w. (
      ok tt,
      notify platform gateway_kind
          (record {
            event = "EventWorkerSliceGatewayDeletedForcefully";
            action = "deleted_forcefully";
          })
          gateway.metadata.name w,
    ))
    pairs ←
        asks (
          list_resources platform.worker_slice_gateways (pair_label gateway slice) (some namespace))
    delete_first pairs
    (λ w.
        reported platform gateway_kind
          (record { event = "EventWorkerSliceGatewayRecreated"; action = "recreated" })
          (record {
            event = "EventWorkerSliceGatewayRecreationFailed";
            action = "recreation_failed";
          })
          gateway.metadata.name
          (update_resource platform.slice_configs (touched_slice (platform.now w) slice) w))

  abbrev recreate_if : Bool → WorkerSliceGateway → SliceConfig → M W (Unit {0})
  recreate_if true gateway slice = recreate gateway slice
  recreate_if false gateway slice = pure tt

  abbrev recreate_if_kept : WorkerSliceGateway → Option SliceConfig → M W (Unit {0})
  recreate_if_kept gateway none = pure tt
  recreate_if_kept gateway (some slice) = elim slice.metadata.deletion_timestamp [
    | some t ↦ pure tt
    | none ↦
        recreate_if (contains_string slice.spec.clusters (label gateway.metadata "worker-cluster"))
          gateway slice
  ]

  abbrev delete_secret_found : {A : Type 0} → String → Option A → M W (Unit {0})
  delete_secret_found name none = pure tt
  delete_secret_found name (some secret) = delete_secret platform namespace name

  abbrev after_finalizers : WorkerSliceGateway → Result → M W Result
  after_finalizers gateway result = elim result.requeue [
    | true ↦ pure result
    | false ↦ (do
      secret ← asks (
          get_resource_if_exist platform.secrets
            (record { namespace = namespace; name = gateway.metadata.name }))
      delete_secret_found gateway.metadata.name secret
      slice ← find_slice gateway.spec.slice_name
      recreate_if_kept gateway slice
      pure result)
  ]

  -- A gateway that is being deleted.
  unfoldable delete_reconciled : WorkerSliceGateway → M W Result
  unfolding recreate
  delete_reconciled gateway =
      remove_worker_finalizers platform platform.worker_slice_gateways gateway_object
        worker_slice_gateway_finalizer gateway
      >>= after_finalizers gateway

  abbrev update_services : WorkerSliceGateway → Option SliceConfig → M W Result
  update_services gateway none = pure done
  update_services gateway (some slice) = do
    set ← asks (λ w. with_services slice gateway)
    update_resource platform.worker_slice_gateways set
    reconcile_node_ip_and_node_port platform set namespace
    pure done

  -- The gateway once it has the finalizer.
  abbrev ensure_finalizer : WorkerSliceGateway → M W (Result × WorkerSliceGateway)
  ensure_finalizer gateway =
      elim (contains_string gateway.metadata.finalizers worker_slice_gateway_finalizer) [
        | true ↦ pure (done, gateway)
        | false ↦
            add_finalizer platform platform.worker_slice_gateways gateway_object
              worker_slice_gateway_finalizer gateway
      ]

  -- A gateway that is not being deleted.
  unfoldable update_reconciled : WorkerSliceGateway → M W Result
  unfolding with_services
  update_reconciled gateway = do
    owned ← ensure_finalizer gateway
    slice ← find_slice owned.1.spec.slice_name
    update_services owned.1 slice

  abbrev reconcile_found : Option WorkerSliceGateway → M W Result
  reconcile_found none = pure done
  reconcile_found (some gateway) = elim gateway.metadata.deletion_timestamp [
    | none ↦ update_reconciled gateway
    | some t ↦ delete_reconciled gateway
  ]

  -- ReconcileWorkerSliceGateways
  unfoldable reconcile_worker_slice_gateways : String → M W Result
  unfolding update_reconciled delete_reconciled
  reconcile_worker_slice_gateways name = do
    gateway ← asks (
        get_resource_if_exist platform.worker_slice_gateways
          (record { namespace = namespace; name = name }))
    reconcile_found gateway
