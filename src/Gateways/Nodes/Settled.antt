-- ===== src/Gateways/Nodes/Settled.antt =====
-- What the reconciliation of node addresses leaves (service/worker_slice_gateway_service.go).
use kubeslice_controller.Common.{
  ℕ, String, ◌≡◌, ◌≢◌, refl, sym, ap, subst, ◌∙◌, ◌⊎◌, some, true, false, Bool, not, inl, inr, List,
  [], ◌∷◌, =?_iff, ◌==◌, ◌==ₗ◌, ==ₗ_refl, ==ₗ_sound, eq_iff, eq_refl, All, arith,
}
use kubeslice_controller.Go.{ok}
use kubeslice_controller.Go.Effect.{◌>>=◌, pure, resume-ok, returned}
use kubeslice_controller.Resources.Meta.{Key}
use kubeslice_controller.Resources.Cluster.{Cluster}
use kubeslice_controller.Resources.Worker.{WorkerSliceGateway}
use kubeslice_controller.Platform.{Platform, get_resource_if_exist, list_resources, update_resource}
use kubeslice_controller.Gateways.Pairs.{node_ips_of}
use kubeslice_controller.Gateways.Nodes.Frames.{
  key_of_gateway, IsStored, reconcile_node_ips-Left, loop-frame, others_stay,
}
use kubeslice_controller.Gateways.Nodes.{
  ◌=?ₗ◌, differs, mirrored, update_if, with_node_ips, with_node_ip, lacks_node_ips,
  reconcile_node_ips, reconcile_all_node_ips, node_ip_reconciliation_of_worker_slice_gateways,
}

=?ₗ_refl : (xs : List ℕ) → (xs =?ₗ xs) ≡ true
=?ₗ_refl [] = refl
=?ₗ_refl (x ∷ xs) = rw ((=?_iff x x).1 refl) (=?ₗ_refl xs)

-- After the remote gateway got the fields of the local one, reconcileNodeIPAndNodePort finds no difference
-- between the two: a second run writes nothing.
differs-mirrored : (here there : WorkerSliceGateway) → differs here (mirrored here there) ≡ false
unfolding differs mirrored
differs-mirrored here there =
    let side = here.spec.local_gateway_config in
    ground (
      arith,
      ==ₗ_refl side.node_ips,
      eq_refl side.node_ip,
      (=?_iff side.node_port side.node_port).1 refl,
      =?ₗ_refl side.node_ports,
      ==ₗ_refl side.load_balancer_ips,
    )

-- A gateway has the addresses of its cluster.
pub record IsSettled (cluster : Cluster) (gateway : WorkerSliceGateway) : Type 0 where
  pub ips : gateway.spec.local_gateway_config.node_ips ≡ node_ips_of cluster
  pub ip : gateway.spec.local_gateway_config.node_ip ≡ cluster.spec.node_ip

module _ {W : Type 0} (platform : Platform W) (cluster : Cluster) where
  update_if_cases :
      (test : Bool) (old new left : WorkerSliceGateway) (w w' : W)
      → update_if platform test old new w ≡ (ok left, w')
      → ((test ≡ false) × (old ≡ left)) ⊎ (new ≡ left)
  update_if_cases false old new left w w' h = inl (refl, cc)
  update_if_cases true old new left w w' h =
      inr (returned (update_resource platform.worker_slice_gateways new) new w h)

  moved_ips :
      (filled moved : WorkerSliceGateway)
      → ((not (filled.spec.local_gateway_config.node_ips ==ₗ node_ips_of cluster) ≡ false)
          × (filled ≡ moved))
        ⊎ (with_node_ips (node_ips_of cluster) filled ≡ moved)
      → moved.spec.local_gateway_config.node_ips ≡ node_ips_of cluster
  moved_ips filled moved (inl (same, e)) =
      ap (λ g. g.spec.local_gateway_config.node_ips) (sym e)
      ∙ ==ₗ_sound filled.spec.local_gateway_config.node_ips (node_ips_of cluster)
          (ground (arith, same))
  moved_ips filled moved (inr e) = ap (λ g. g.spec.local_gateway_config.node_ips) (sym e)

  left-IsSettled :
      (moved left : WorkerSliceGateway)
      → moved.spec.local_gateway_config.node_ips ≡ node_ips_of cluster
      → ((not (moved.spec.local_gateway_config.node_ip == cluster.spec.node_ip) ≡ false)
          × (moved ≡ left))
        ⊎ (with_node_ip cluster.spec.node_ip moved ≡ left)
      → IsSettled cluster left
  left-IsSettled moved left h (inl (same, e)) = record {
    ips = ap (λ g. g.spec.local_gateway_config.node_ips) (sym e) ∙ h;
    ip =
        ap (λ g. g.spec.local_gateway_config.node_ip) (sym e)
        ∙ (eq_iff moved.spec.local_gateway_config.node_ip cluster.spec.node_ip).0
            (ground (arith, same));
  }
  left-IsSettled moved left h (inr e) = record {
    ips = ap (λ g. g.spec.local_gateway_config.node_ips) (sym e) ∙ h;
    ip = ap (λ g. g.spec.local_gateway_config.node_ip) (sym e);
  }

  reconcile_node_ips-IsSettled :
      (gateway left : WorkerSliceGateway) (w w' : W)
      → reconcile_node_ips platform cluster gateway w ≡ (ok left, w')
      → IsSettled cluster left
  unfolding reconcile_node_ips
  reconcile_node_ips-IsSettled gateway left w w' h =
      let third = λ (moved : WorkerSliceGateway).
        update_if platform (not (moved.spec.local_gateway_config.node_ip == cluster.spec.node_ip))
          moved (with_node_ip cluster.spec.node_ip moved) in
      let second = λ (filled : WorkerSliceGateway).
        update_if platform (not (filled.spec.local_gateway_config.node_ips ==ₗ node_ips_of cluster))
          filled (with_node_ips (node_ips_of cluster) filled) in
      let (filled, v, e, k) =
        resume-ok
          (update_if platform (lacks_node_ips gateway) gateway
            (with_node_ips (gateway.spec.local_gateway_config.node_ip ∷ []) gateway))
          (λ g. second g >>= third) h in
      let (moved, u, f, l) = resume-ok (second filled) third k in
      left-IsSettled moved left (moved_ips filled moved (update_if_cases _ _ _ moved v u f))
        (update_if_cases _ _ _ left u w' l)

  -- What the server has under the name of a gateway has the addresses of the cluster.
  abbrev pub IsSettledAt : W → WorkerSliceGateway → Type 0
  IsSettledAt w gateway =
      (stored : WorkerSliceGateway) × (get_resource_if_exist platform.worker_slice_gateways
          (key_of_gateway gateway) w
        ≡ ok (some stored))
      × IsSettled cluster stored

  module _
      (stores : (gateway : WorkerSliceGateway) (v v' : W)
        → update_resource platform.worker_slice_gateways gateway v ≡ (ok tt, v')
        → IsStored platform cluster v' gateway)
      (keeps_others : (gateway : WorkerSliceGateway) (key : Key) (v v' : W)
        → key ≢ key_of_gateway gateway
        → update_resource platform.worker_slice_gateways gateway v ≡ (ok tt, v')
        → get_resource_if_exist platform.worker_slice_gateways key v'
          ≡ get_resource_if_exist platform.worker_slice_gateways key v) where
    -- No two gateways have the same name.
    abbrev AreDistinct : List WorkerSliceGateway → Type 0
    AreDistinct [] = Unit {0}
    AreDistinct (gateway ∷ rest) =
        All (λ g. key_of_gateway gateway ≢ key_of_gateway g) rest × AreDistinct rest

    loop-IsSettledAt :
        (gateways left : List WorkerSliceGateway) (w w' : W)
        → AreDistinct gateways
        → All (IsStored platform cluster w) gateways
        → reconcile_all_node_ips platform cluster gateways w ≡ (ok left, w')
        → All (IsSettledAt w') gateways
    unfolding reconcile_all_node_ips
    loop-IsSettledAt [] left w w' distinct each h = tt
    loop-IsSettledAt (gateway ∷ rest) left w w' distinct each h =
        let (one, v, e, k) =
          resume-ok (reconcile_node_ips platform cluster gateway)
            (λ (one : WorkerSliceGateway).
              reconcile_all_node_ips platform cluster rest >>= λ (tail : List WorkerSliceGateway).
              pure {W = W} (one ∷ tail))
            h in
        let (tail, u, f, l) =
          resume-ok (reconcile_all_node_ips platform cluster rest)
            (λ (tail : List WorkerSliceGateway). pure {W = W} (one ∷ tail)) k in
        let last : u ≡ w' = cc in
        let (same, stored, frame) =
          reconcile_node_ips-Left platform cluster stores keeps_others gateway one w v e in
        let here : get_resource_if_exist platform.worker_slice_gateways (key_of_gateway gateway) v
            ≡ ok (some one) =
          ap (λ key. get_resource_if_exist platform.worker_slice_gateways key v) (sym same)
          ∙ stored each.0 in
        subst (λ x. All (IsSettledAt x) (gateway ∷ rest)) last
          (
            (
              one,
              loop-frame platform cluster stores keeps_others rest tail (key_of_gateway gateway) v u
                    distinct.0 f
                  ∙ here,
              reconcile_node_ips-IsSettled gateway one w v e,
            ),
            loop-IsSettledAt rest tail v u distinct.1
                (others_stay platform cluster stores keeps_others rest (key_of_gateway gateway) w v
                  distinct.0 frame each.1)
                f,
          )

    -- Where NodeIpReconciliationOfWorkerSliceGateways returns no error, the API server then has, under the
    -- name of each gateway that it listed for the cluster, a gateway with the node addresses that the
    -- cluster's user gives, or those that the worker reports if the user gives none, and with the single
    -- node address that the user gives. The listed gateways have different names and are what the server
    -- has under them, and an update that the server accepts stores the gateway under its name and changes
    -- no other.
    pub node_ip_reconciliation_of_worker_slice_gateways-IsSettled :
        (namespace : String) (gateways left : List WorkerSliceGateway) (w w' : W)
        → list_resources platform.worker_slice_gateways
            (("worker-cluster", cluster.metadata.name) ∷ [])
            (some namespace)
            w
          ≡ ok gateways
        → AreDistinct gateways
        → All (IsStored platform cluster w) gateways
        → node_ip_reconciliation_of_worker_slice_gateways platform cluster namespace w
          ≡ (ok left, w')
        → All (IsSettledAt w') gateways
    unfolding node_ip_reconciliation_of_worker_slice_gateways
    node_ip_reconciliation_of_worker_slice_gateways-IsSettled namespace gateways left w w' listed
          distinct each h =
        loop-IsSettledAt gateways left w w' distinct each (rw listed at h)
