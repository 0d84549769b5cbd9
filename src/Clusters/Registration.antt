-- ===== src/Clusters/Registration.antt =====
-- A cluster that is registered (ReconcileCluster of service/cluster_service.go): the labels of its project, its
-- service account with the secret, its node addresses, and the default slice.
use kubeslice_controller.Common.{
  String, Bool, true, false, not, ◌&&◌, ◌||◌, List, [], ◌∷◌, Option, none, some, Map, insert,
  length, ltb, ◌==◌,
}
use kubeslice_controller.Common.Int.{pos}
use kubeslice_controller.Go.{message, Outcome, ok, err, panic}
use kubeslice_controller.Go.Effect.{M, ◌>>=◌, ◌>>◌, pure, asks}
use kubeslice_controller.Go.Text.{◌<>◌}
use kubeslice_controller.Resources.Meta.{ObjectMeta, Namespace, Secret}
use kubeslice_controller.Resources.Cluster.{Cluster}
use kubeslice_controller.Resources.Access.{Account}
use kubeslice_controller.Platform.{Platform, get_resource_if_exist, update_resource}
use kubeslice_controller.Util.Labels.{filter_labels_and_annotations, put_all, compare_labels}
use kubeslice_controller.Util.Reconciliation.{Result, done}
use kubeslice_controller.AccessControl.Users.{
  Prefixes, reconcile_worker_cluster_service_account_and_role_bindings,
}
use kubeslice_controller.Gateways.Nodes.{node_ip_reconciliation_of_worker_slice_gateways}
use kubeslice_controller.DefaultSlices.Operations.{default_slice_operations}
use kubeslice_controller.Clusters.Deregistration.{cluster_owner, update_status}

-- RequeueTime, 30 seconds, after which the secret of the service account is looked for again.
abbrev token_not_populated : Result
token_not_populated = record { requeue = true; requeue_after = pos 30 }

-- The labels or annotations with those of the project's namespace, and whether they differed from them.
abbrev adopt_if : Bool → Map String → Map String → Map String × Bool
adopt_if true own wanted = (own, false)
adopt_if false own wanted = (put_all wanted own, true)

unfoldable adopt : (own given : Map String) → Map String × Bool
unfolding compare_labels filter_labels_and_annotations put_all
adopt own given =
    let wanted = filter_labels_and_annotations given in
    adopt_if (compare_labels own wanted) own wanted

abbrev with_metadata : ObjectMeta → Cluster → Cluster
with_metadata metadata cluster = record cluster { metadata = metadata }

abbrev with_secret_name : String → Cluster → Cluster
with_secret_name name cluster = record cluster {
  status = record cluster.status { secret_name = name };
}

abbrev with_node_ips : List String → Cluster → Cluster
with_node_ips node_ips cluster = record cluster {
  spec = record cluster.spec { node_ips = node_ips };
}

-- `len(NodeIPs) > 0 && NodeIPs[0] == ""`
abbrev starts_empty : List String → Bool
starts_empty [] = false
starts_empty (ip ∷ rest) = ip == ""

-- `NodeIPs[0] = NodeIP` of a list that was made to have an element.
abbrev with_first : String → List String → List String
with_first ip [] = ip ∷ []
with_first ip (first ∷ rest) = ip ∷ rest

module _ {W : Type 0} (platform : Platform W) (namespace : String) where
  abbrev store_if : Bool → Cluster → Cluster → M W Cluster
  store_if false old new = pure old
  store_if true old new = update_resource platform.clusters new >> pure new

  -- Step 2: the labels and annotations of the project's namespace.
  unfoldable adopt_project : Namespace → Cluster → M W Cluster
  unfolding adopt
  adopt_project project cluster =
      let (labels, new_labels) = adopt cluster.metadata.labels project.metadata.labels in
      let (annotations, new_annotations) =
        adopt cluster.metadata.annotations project.metadata.annotations in
      store_if (new_labels || new_annotations) cluster (
        with_metadata (record cluster.metadata { labels = labels; annotations = annotations })
          cluster)

  abbrev secret_or_error : Option Secret → Outcome Secret
  secret_or_error none = err (message "could not find secret")
  secret_or_error (some secret) = ok secret

  unfoldable find_secret : String → M W Secret
  find_secret secret_name w = (
    go (
        get_resource_if_exist platform.secrets
          (record { namespace = namespace; name = secret_name }) w),
    w,
  )
    where
      go : Outcome (Option Secret) → Outcome Secret
      go (ok found) = secret_or_error found
      go (err e) = err e
      go panic = panic

  -- Step 5: the cluster's status names the secret, and the secret the cluster.
  unfoldable publish_secret : (controller_endpoint : String) → Secret → Cluster → M W Cluster
  unfolding update_status
  publish_secret controller_endpoint secret cluster = do
    updated ← update_status platform (with_secret_name secret.metadata.name cluster)
    update_resource platform.secrets (record secret {
      contents =
          insert "clusterName" updated.metadata.name
            (insert "controllerEndpoint" controller_endpoint secret.contents);
    })
    pure updated

  -- The two corrections of the node addresses.
  unfoldable settle_node_ips : Cluster → M W Cluster
  settle_node_ips cluster = do
    cleared ← store_if (starts_empty cluster.spec.node_ips) cluster (with_node_ips [] cluster)
    store_if (ltb (length cleared.spec.node_ips) 2 && not (cleared.spec.node_ip == "")) cleared
        (with_node_ips (with_first cleared.spec.node_ip cleared.spec.node_ips) cleared)

  -- Step 6
  abbrev settle_gateways : Bool → Cluster → M W (Unit {0})
  settle_gateways false cluster = pure tt
  settle_gateways true cluster =
      node_ip_reconciliation_of_worker_slice_gateways platform cluster namespace >> pure tt

  module _ (prefixes : Prefixes) (controller_endpoint name : String) where
    -- The steps after the secret's name is known.
    unfoldable with_secret : Cluster → List String → M W Result
    unfolding find_secret publish_secret settle_node_ips
    with_secret cluster [] = pure token_not_populated
    with_secret cluster (secret_name ∷ rest) = do
      secret ← find_secret secret_name
      published ← publish_secret controller_endpoint secret cluster
      settled ← settle_node_ips published
      settle_gateways settled.status.network_present settled
      default_slice_operations platform namespace name settled
      pure done

    abbrev secrets_of : Option Account → List String
    secrets_of none = []
    secrets_of (some account) = account.secrets

    -- Steps 2 to 6. The service account is read before it is made, so that the first run asks for another.
    unfoldable pub register : Namespace → Cluster → M W Result
    unfolding adopt_project with_secret
    register project cluster = do
      adopted ← adopt_project project cluster
      account ← asks (
          get_resource_if_exist platform.service_accounts (record {
            namespace = namespace;
            name = prefixes.service_account_worker_cluster <> adopted.metadata.name;
          }))
      reconcile_worker_cluster_service_account_and_role_bindings platform prefixes name namespace
          (cluster_owner adopted)
      with_secret adopted (secrets_of account)
