-- ===== src/Gateways/Nodes.antt =====
-- The addresses of nodes in gateways (service/worker_slice_gateway_service.go).
pub mod Frames
pub mod Settled
use kubeslice_controller.Common.{
  ℕ, String, ◌≡◌, refl, Bool, true, false, not, ◌&&◌, ◌||◌, List, [], ◌∷◌, Option, none, some, Map,
  ◌=?◌, ◌==◌, ◌==ₗ◌,
}
use kubeslice_controller.Go.{Outcome, ok, err, panic}
use kubeslice_controller.Go.Effect.{M, ◌>>=◌, ◌>>◌, pure, asks}
use kubeslice_controller.Resources.Meta.{Key}
use kubeslice_controller.Resources.Cluster.{Cluster}
use kubeslice_controller.Resources.Worker.{SliceGatewayConfig, WorkerSliceGateway}
use kubeslice_controller.Platform.{Platform, get_resource_if_exist, list_resources, update_resource}
use kubeslice_controller.Gateways.Pairs.{server_gateway, node_ips_of}

-- `reflect.DeepEqual` of two lists of ports.
infix 50 ◌=?ₗ◌
abbrev pub ◌=?ₗ◌ : List ℕ → List ℕ → Bool
[] =?ₗ [] = true
(x ∷ xs) =?ₗ (y ∷ ys) = x =? y && xs =?ₗ ys
_ =?ₗ _ = false

-- The test of reconcileNodeIPAndNodePort: what the remote gateway says of its peer is not what the peer says.
unfoldable pub differs : WorkerSliceGateway → WorkerSliceGateway → Bool
differs local_gateway remote_gateway =
    let here = local_gateway.spec.local_gateway_config in
    let there = remote_gateway.spec.remote_gateway_config in
    not (here.node_ips ==ₗ there.node_ips)
    || (not (here.node_ip == there.node_ip)
        || (not (here.node_port =? there.node_port)
            || (not (here.node_ports =?ₗ there.node_ports)
                || (local_gateway.spec.gateway_host_type == server_gateway
                    && not (here.load_balancer_ips ==ₗ there.load_balancer_ips)))))

-- The remote gateway with the five fields copied.
unfoldable pub mirrored : WorkerSliceGateway → WorkerSliceGateway → WorkerSliceGateway
mirrored local_gateway remote_gateway =
    let here = local_gateway.spec.local_gateway_config in
    record remote_gateway {
      spec = record remote_gateway.spec {
        remote_gateway_config = record remote_gateway.spec.remote_gateway_config {
          node_ip = here.node_ip;
          node_ips = here.node_ips;
          node_port = here.node_port;
          node_ports = here.node_ports;
          load_balancer_ips = here.load_balancer_ips;
        };
      };
    }

abbrev pub with_node_ips : List String → WorkerSliceGateway → WorkerSliceGateway
with_node_ips ips gateway = record gateway {
  spec = record gateway.spec {
    local_gateway_config = record gateway.spec.local_gateway_config { node_ips = ips };
  };
}

abbrev pub with_node_ip : String → WorkerSliceGateway → WorkerSliceGateway
with_node_ip ip gateway = record gateway {
  spec = record gateway.spec {
    local_gateway_config = record gateway.spec.local_gateway_config { node_ip = ip };
  };
}

abbrev pub lacks_node_ips : WorkerSliceGateway → Bool
lacks_node_ips gateway = gateway.spec.local_gateway_config.node_ips ==ₗ []

module _ {W : Type 0} (platform : Platform W) where
  -- `if test { change; err = UpdateResource(…) }`, with the gateway that is left.
  abbrev pub update_if : Bool → WorkerSliceGateway → WorkerSliceGateway → M W WorkerSliceGateway
  update_if false old new = pure old
  update_if true old new = update_resource platform.worker_slice_gateways new >> pure new

  abbrev mirror_found : WorkerSliceGateway → Option WorkerSliceGateway → M W (Unit {0})
  mirror_found local_gateway none = pure tt
  mirror_found local_gateway (some remote) =
      update_if (differs local_gateway remote) remote (mirrored local_gateway remote) >> pure tt

  -- reconcileNodeIPAndNodePort
  unfoldable pub reconcile_node_ip_and_node_port : WorkerSliceGateway → String → M W (Unit {0})
  unfolding differs mirrored
  reconcile_node_ip_and_node_port local_gateway namespace = do
    found ← asks (
        get_resource_if_exist platform.worker_slice_gateways (record {
          namespace = namespace;
          name = local_gateway.spec.remote_gateway_config.gateway_name;
        }))
    mirror_found local_gateway found

  -- The body of the loop of NodeIpReconciliationOfWorkerSliceGateways: up to three updates.
  unfoldable pub reconcile_node_ips : Cluster → WorkerSliceGateway → M W WorkerSliceGateway
  reconcile_node_ips cluster gateway = do
    filled ←
        update_if (lacks_node_ips gateway) gateway
          (with_node_ips (gateway.spec.local_gateway_config.node_ip ∷ []) gateway)
    moved ←
        update_if (not (filled.spec.local_gateway_config.node_ips ==ₗ node_ips_of cluster)) filled
          (with_node_ips (node_ips_of cluster) filled)
    update_if (not (moved.spec.local_gateway_config.node_ip == cluster.spec.node_ip)) moved
        (with_node_ip cluster.spec.node_ip moved)

  -- The loop, with the gateways as it leaves them.
  unfoldable pub reconcile_all_node_ips :
      Cluster → List WorkerSliceGateway → M W (List WorkerSliceGateway)
  unfolding reconcile_node_ips
  reconcile_all_node_ips cluster [] = pure []
  reconcile_all_node_ips cluster (gateway ∷ rest) = do
    left ← reconcile_node_ips cluster gateway
    others ← reconcile_all_node_ips cluster rest
    pure (left ∷ others)

  -- NodeIpReconciliationOfWorkerSliceGateways
  unfoldable pub node_ip_reconciliation_of_worker_slice_gateways :
      Cluster → String → M W (List WorkerSliceGateway)
  unfolding reconcile_all_node_ips
  node_ip_reconciliation_of_worker_slice_gateways cluster namespace = do
    gateways ← asks (
        list_resources platform.worker_slice_gateways
          (("worker-cluster", cluster.metadata.name) ∷ []) (some namespace))
    reconcile_all_node_ips cluster gateways
