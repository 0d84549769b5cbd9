-- ===== src/Witnesses/Stored.antt =====
-- A server that stores gateways under their names, and the theorems that depend on what it stores.
use kubeslice_controller.Common.{
  ◌≡◌, ◌≢◌, refl, sym, ap, ◌∙◌, Bool, true, false, ◌&&◌, List, [], ◌∷◌, Option, none, some, All,
  inl, inr, Bool-cases, ◌==◌, eq_iff, eq_refl, arith,
}
use kubeslice_controller.Go.{ApiError, already_exists, api, Outcome, ok, err}
use kubeslice_controller.Resources.Meta.{Key}
use kubeslice_controller.Resources.Worker.{WorkerSliceGateway}
use kubeslice_controller.Platform.{
  Platform, Resource, Fetch, found, missing, failed, get_resource_if_exist, create_resource,
  update_resource, list_resources, answer,
}
use kubeslice_controller.Gateways.Pairs.{create_minimum_gateway_pair_if_not_exists}
use kubeslice_controller.Gateways.Creation.HalfMade.{
  IsHalfMade, create_minimum_gateway_pair_if_not_exists-IsHalfMade,
}
use kubeslice_controller.Gateways.Nodes.{
  node_ip_reconciliation_of_worker_slice_gateways, reconcile_all_node_ips, reconcile_node_ips,
  with_node_ips,
}
use kubeslice_controller.Gateways.Nodes.Frames.{key_of_gateway}
use kubeslice_controller.Gateways.Nodes.Settled.{
  IsSettledAt, node_ip_reconciliation_of_worker_slice_gateways-IsSettled,
}
use kubeslice_controller.Witnesses.Data.{cluster, tunnel, pair, addresses, settings}

-- The gateways, the last written first.
abbrev Store : Type 0
Store = List WorkerSliceGateway

abbrev idle : {A : Type 0} → Resource Store A
idle = record {
  get = λ key w. missing;
  list = λ labels namespace w. inr [];
  create = λ object w. (none, w);
  update = λ object w. (none, w);
  delete = λ object w. (none, w);
}

abbrev first_of : Bool → WorkerSliceGateway → Fetch WorkerSliceGateway → Fetch WorkerSliceGateway
first_of true gateway rest = found gateway
first_of false gateway rest = rest

abbrev is_named : Key → WorkerSliceGateway → Bool
is_named key gateway =
    gateway.metadata.namespace == key.namespace && gateway.metadata.name == key.name

find : Key → Store → Fetch WorkerSliceGateway
find key [] = missing
find key (gateway ∷ rest) = first_of (is_named key gateway) gateway (find key rest)

abbrev put_new : Fetch WorkerSliceGateway → WorkerSliceGateway → Store → Option ApiError × Store
put_new missing gateway w = (none, gateway ∷ w)
put_new _ gateway w = (some already_exists, w)

abbrev keeper : Platform Store
keeper = record {
  namespaces = idle;
  clusters = idle;
  slice_configs = idle;
  slice_qos_configs = idle;
  service_export_configs = idle;
  worker_slice_configs = idle;
  worker_slice_gateways = record {
    get = find;
    list = λ labels namespace w. inr w;
    create = λ gateway w. put_new (find (key_of_gateway gateway) w) gateway w;
    update = λ gateway w. (none, gateway ∷ w);
    delete = λ gateway w. (none, w);
  };
  worker_service_imports = idle;
  vpn_key_rotations = idle;
  secrets = idle;
  projects = idle;
  worker_slice_gw_recyclers = idle;
  roles = idle;
  role_bindings = idle;
  service_accounts = idle;
  config_maps = idle;
  update_cluster_status = λ cluster w. (none, w);
  unmarshal_map = λ s. none;
  range_keys = λ keys w. keys;
  new_uuid = λ w. "0a1b2c3d";
  jobs = idle;
  record_event = λ event name w. w;
  record_metric = λ report w. w;
  now = λ w. 0;
  parse_cidr6 = λ s. none;
}

abbrev fetched : Fetch WorkerSliceGateway → Outcome (Option WorkerSliceGateway)
fetched (found gateway) = ok (some gateway)
fetched missing = ok none
fetched (failed e) = err (api e)

get-find :
    (key : Key) (w : Store)
    → get_resource_if_exist keeper.worker_slice_gateways key w ≡ fetched (find key w)
unfolding get_resource_if_exist
get-find key w = go (find key w)
  where
    go :
        (r : Fetch WorkerSliceGateway)
        → elim r [ found a ↦ ok (some a) | missing ↦ ok none | failed e ↦ err (api e) ] ≡ fetched r
    go (found gateway) = refl
    go missing = refl
    go (failed e) = refl

stores :
    (gateway : WorkerSliceGateway) (v v' : Store)
    → update_resource keeper.worker_slice_gateways gateway v ≡ (ok tt, v')
    → get_resource_if_exist keeper.worker_slice_gateways (key_of_gateway gateway) v'
      ≡ ok (some gateway)
unfolding update_resource find
stores gateway v v' h =
    let e : gateway ∷ v ≡ v' = cc in
    get-find (key_of_gateway gateway) v'
    ∙ ap (λ u. fetched (find (key_of_gateway gateway) u)) (sym e)
    ∙ rw (eq_refl gateway.metadata.namespace, eq_refl gateway.metadata.name) refl

other_name :
    (gateway : WorkerSliceGateway) (key : Key)
    → key ≢ key_of_gateway gateway
    → is_named key gateway ≡ false
other_name gateway key other = elim (Bool-cases (is_named key gateway)) [
  | inr e ↦ e
  | inl e ↦
      let same_namespace : gateway.metadata.namespace ≡ key.namespace =
        (eq_iff gateway.metadata.namespace key.namespace).0 (ground (arith, e)) in
      let same_name : gateway.metadata.name ≡ key.name =
        (eq_iff gateway.metadata.name key.name).0 (ground (arith, e)) in
      absurd (other (λ i. record { namespace = sym same_namespace i; name = sym same_name i }))
]

keeps_others :
    (gateway : WorkerSliceGateway) (key : Key) (v v' : Store)
    → key ≢ key_of_gateway gateway
    → update_resource keeper.worker_slice_gateways gateway v ≡ (ok tt, v')
    → get_resource_if_exist keeper.worker_slice_gateways key v'
      ≡ get_resource_if_exist keeper.worker_slice_gateways key v
unfolding update_resource find
keeps_others gateway key v v' other h =
    let e : gateway ∷ v ≡ v' = cc in
    get-find key v'
    ∙ ap (λ u. fetched (find key u)) (sym e)
    ∙ ap (λ b. fetched (first_of b gateway (find key v))) (other_name gateway key other)
    ∙ sym (get-find key v)

conflicts :
    (gateway old : WorkerSliceGateway) (w : Store)
    → get_resource_if_exist keeper.worker_slice_gateways (key_of_gateway gateway) w ≡ ok (some old)
    → create_resource keeper.worker_slice_gateways gateway w ≡ (err (api already_exists), w)
unfolding create_resource
conflicts gateway old w h =
    go (find (key_of_gateway gateway) w) (sym (get-find (key_of_gateway gateway) w) ∙ h)
  where
    go :
        (r : Fetch WorkerSliceGateway)
        → fetched r ≡ ok (some old)
        → answer keeper.worker_slice_gateways (put_new r gateway w) ≡ (err (api already_exists), w)
    go (found g) k = refl
    go missing k = cc
    go (failed e) k = cc

-- The server gateway of the pair, without the client gateway.
abbrev half : Store
half =
    record (tunnel "west" "east" 1) {
      metadata = record (tunnel "west" "east" 1).metadata { name = "red-west-east" };
    }
    ∷ []

half_made : IsHalfMade pair (cluster "west") (cluster "east") addresses keeper settings half
unfolding get_resource_if_exist find
half_made = ((_, refl), refl)

half_made_example :
    ((create_minimum_gateway_pair_if_not_exists pair
        (cluster "west")
        (cluster "east")
        addresses
        keeper
        settings
        []
        half).0
      ≡ err (api already_exists))
    × IsHalfMade pair
        (cluster "west")
        (cluster "east")
        addresses
        keeper
        settings
        (create_minimum_gateway_pair_if_not_exists pair
          (cluster "west")
          (cluster "east")
          addresses
          keeper
          settings
          []
          half).1
half_made_example =
    create_minimum_gateway_pair_if_not_exists-IsHalfMade pair (cluster "west") (cluster "east")
      addresses keeper settings conflicts (λ notice name key w. refl) [] half half_made

-- Two gateways that a list returns, without the addresses of the cluster yet.
abbrev unsettled : Store
unsettled = tunnel "west" "east" 1 ∷ tunnel "south" "east" 7 ∷ []

abbrev settled : Store
settled =
    with_node_ips ("192.0.2.1" ∷ []) (tunnel "west" "east" 1)
    ∷ with_node_ips ("192.0.2.1" ∷ []) (tunnel "south" "east" 7)
    ∷ []

west≢south : key_of_gateway (tunnel "west" "east" 1) ≢ key_of_gateway (tunnel "south" "east" 7)
west≢south h =
    let names : "west" ≡ "south" = ap (λ k. k.name) h in
    let same : ("west" == "south") ≡ true = (eq_iff "west" "south").1 names in cc

IsSettled_example :
    All
      (IsSettledAt keeper
        (cluster "west")
        (node_ip_reconciliation_of_worker_slice_gateways keeper
          (cluster "west")
          "kubeslice-avesha"
          unsettled).1)
      unsettled
unfolding node_ip_reconciliation_of_worker_slice_gateways reconcile_all_node_ips reconcile_node_ips
    update_resource list_resources get_resource_if_exist find
IsSettled_example =
    node_ip_reconciliation_of_worker_slice_gateways-IsSettled keeper (cluster "west") stores
      keeps_others "kubeslice-avesha" unsettled settled unsettled _ refl
      ((west≢south, tt), (tt, tt)) (refl, (refl, tt)) refl
