-- ===== src/Gateways/Nodes/Frames.antt =====
-- What the loop over nodes' addresses leaves of each gateway and of the others
-- (service/worker_slice_gateway_service.go).
use kubeslice_controller.Common.{
  ◌≡◌, ◌≢◌, refl, sym, ap, subst, ◌∙◌, some, true, false, Bool, not, List, [], ◌∷◌, ◌==◌, ◌==ₗ◌,
  All,
}
use kubeslice_controller.Go.{ok}
use kubeslice_controller.Go.Effect.{◌>>=◌, pure, resume-ok}
use kubeslice_controller.Resources.Meta.{Key}
use kubeslice_controller.Resources.Cluster.{Cluster}
use kubeslice_controller.Resources.Worker.{WorkerSliceGateway}
use kubeslice_controller.Platform.{Platform, get_resource_if_exist, update_resource}
use kubeslice_controller.Gateways.Pairs.{node_ips_of}
use kubeslice_controller.Gateways.Nodes.{
  update_if, with_node_ips, with_node_ip, lacks_node_ips, reconcile_node_ips,
  reconcile_all_node_ips,
}

abbrev pub key_of_gateway : WorkerSliceGateway → Key
key_of_gateway gateway = record {
  namespace = gateway.metadata.namespace;
  name = gateway.metadata.name;
}

module _ {W : Type 0} (platform : Platform W) (cluster : Cluster) where
  -- The server has a gateway under its own name.
  abbrev pub IsStored : W → WorkerSliceGateway → Type 0
  IsStored w gateway =
      get_resource_if_exist platform.worker_slice_gateways (key_of_gateway gateway) w
      ≡ ok (some gateway)

  module _
      (stores : (gateway : WorkerSliceGateway) (v v' : W)
        → update_resource platform.worker_slice_gateways gateway v ≡ (ok tt, v')
        → IsStored v' gateway)
      (keeps_others : (gateway : WorkerSliceGateway) (key : Key) (v v' : W)
        → key ≢ key_of_gateway gateway
        → update_resource platform.worker_slice_gateways gateway v ≡ (ok tt, v')
        → get_resource_if_exist platform.worker_slice_gateways key v'
          ≡ get_resource_if_exist platform.worker_slice_gateways key v) where
    -- What one step of the loop leaves of a gateway.
    abbrev pub Left : (gateway left : WorkerSliceGateway) (v v' : W) → Type 0
    Left gateway left v v' =
        (key_of_gateway left ≡ key_of_gateway gateway)
        × (IsStored v gateway → IsStored v' left)
        × ((key : Key)
            → key ≢ key_of_gateway gateway
            → get_resource_if_exist platform.worker_slice_gateways key v'
              ≡ get_resource_if_exist platform.worker_slice_gateways key v)

    update_if-Left :
        (test : Bool) (old new left : WorkerSliceGateway) (v v' : W)
        → key_of_gateway new ≡ key_of_gateway old
        → update_if platform test old new v ≡ (ok left, v')
        → Left old left v v'
    update_if-Left false old new left v v' same h =
        let e : old ≡ left = cc in
        let f : v ≡ v' = cc in
        subst (λ g. Left old g v v') e
          (subst (λ u. Left old old v u) f (refl, λ k. k, λ key k. refl))
    update_if-Left true old new left v v' same h =
        let (u, mid, e, k) =
          resume-ok (update_resource platform.worker_slice_gateways new) (λ _. pure {W = W} new)
            h in
        let f : new ≡ left = cc in
        let g : mid ≡ v' = cc in
        subst (λ x. Left old x v v') f
          (subst (λ x. Left old new v x) g
            (
              same,
              λ there. stores new v mid e,
              λ key other. keeps_others new key v mid (λ wrong. other (wrong ∙ same)) e,
            ))

    Left-trans :
        (a b c : WorkerSliceGateway) (u v w : W) → Left a b u v → Left b c v w → Left a c u w
    Left-trans a b c u v w (same, stored, frame) (same', stored', frame') = (
      same' ∙ same,
      λ h. stored' (stored h),
      λ key other. frame' key (λ wrong. other (wrong ∙ same)) ∙ frame key other,
    )

    pub reconcile_node_ips-Left :
        (gateway left : WorkerSliceGateway) (w w' : W)
        → reconcile_node_ips platform cluster gateway w ≡ (ok left, w')
        → Left gateway left w w'
    unfolding reconcile_node_ips
    reconcile_node_ips-Left gateway left w w' h =
        let third = λ (moved : WorkerSliceGateway).
          update_if platform (not (moved.spec.local_gateway_config.node_ip == cluster.spec.node_ip))
            moved (with_node_ip cluster.spec.node_ip moved) in
        let second = λ (filled : WorkerSliceGateway).
          update_if platform
            (not (filled.spec.local_gateway_config.node_ips ==ₗ node_ips_of cluster)) filled
            (with_node_ips (node_ips_of cluster) filled) in
        let (filled, v, e, k) =
          resume-ok
            (update_if platform (lacks_node_ips gateway) gateway
              (with_node_ips (gateway.spec.local_gateway_config.node_ip ∷ []) gateway))
            (λ g. second g >>= third) h in
        let (moved, u, f, l) = resume-ok (second filled) third k in
        Left-trans gateway filled left w v w' (update_if-Left _ gateway _ filled w v refl e) (
          Left-trans filled moved left v u w' (update_if-Left _ filled _ moved v u refl f)
            (update_if-Left _ moved _ left u w' refl l))

    pub loop-frame :
        (gateways left : List WorkerSliceGateway) (key : Key) (w w' : W)
        → All (λ g. key ≢ key_of_gateway g) gateways
        → reconcile_all_node_ips platform cluster gateways w ≡ (ok left, w')
        → get_resource_if_exist platform.worker_slice_gateways key w'
          ≡ get_resource_if_exist platform.worker_slice_gateways key w
    unfolding reconcile_all_node_ips
    loop-frame [] left key w w' others h =
        let e : w ≡ w' = cc in ap (get_resource_if_exist platform.worker_slice_gateways key) (sym e)
    loop-frame (gateway ∷ rest) left key w w' others h =
        let (one, v, e, k) =
          resume-ok (reconcile_node_ips platform cluster gateway)
            (λ (one : WorkerSliceGateway).
              reconcile_all_node_ips platform cluster rest >>= λ (tail : List WorkerSliceGateway).
              pure {W = W} (one ∷ tail))
            h in
        let (tail, u, f, l) =
          resume-ok (reconcile_all_node_ips platform cluster rest)
            (λ (tail : List WorkerSliceGateway). pure {W = W} (one ∷ tail)) k in
        let last : u ≡ w' = cc in
        let (same, stored, frame) = reconcile_node_ips-Left gateway one w v e in
        ap (get_resource_if_exist platform.worker_slice_gateways key) (sym last)
        ∙ loop-frame rest tail key v u others.1 f
        ∙ frame key others.0

    pub others_stay :
        (gateways : List WorkerSliceGateway) (key : Key) (w v : W)
        → All (λ g. key ≢ key_of_gateway g) gateways
        → ((other : Key)
            → other ≢ key
            → get_resource_if_exist platform.worker_slice_gateways other v
              ≡ get_resource_if_exist platform.worker_slice_gateways other w)
        → All (IsStored w) gateways
        → All (IsStored v) gateways
    others_stay [] key w v others frame each = tt
    others_stay (g ∷ rest) key w v others frame each = (
      frame (key_of_gateway g) (λ same. others.0 (sym same)) ∙ each.0,
      others_stay rest key w v others.1 frame each.1,
    )
