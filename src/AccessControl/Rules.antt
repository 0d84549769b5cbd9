-- ===== src/AccessControl/Rules.antt =====
-- The rules of the roles (service/kube_slice_resource_names.go).
pub mod Inclusion
use kubeslice_controller.Common.{String, Bool, ◌&&◌, List, [], ◌∷◌, contains, any}
use kubeslice_controller.Go.Text.{◌<>◌}
use kubeslice_controller.Resources.Access.{PolicyRule}

-- Api Groups
abbrev api_group_kube_slice_controllers : String
api_group_kube_slice_controllers = "controller.kubeslice.io"

abbrev api_group_kube_slice_worker : String
api_group_kube_slice_worker = "worker.kubeslice.io"

abbrev status : String → String
status resource = resource <> "/status"

abbrev rule : List String → String → List String → PolicyRule
rule verbs group resources = record {
  verbs = verbs;
  api_groups = group ∷ [];
  resources = resources;
}

-- Resources
abbrev worker_resources : List String
worker_resources = "workersliceconfigs" ∷ "workerslicegateways" ∷ "workerserviceimports" ∷ []

abbrev project_resources : List String
project_resources = "clusters" ∷ "sliceconfigs" ∷ "sliceqosconfigs" ∷ "serviceexportconfigs" ∷ []

abbrev project_statuses : List String
project_statuses = status "clusters" ∷ status "sliceconfigs" ∷ status "serviceexportconfigs" ∷ []

abbrev worker_statuses : List String
worker_statuses =
    status "workersliceconfigs" ∷ status "workerslicegateways" ∷ status "workerserviceimports" ∷ []

-- Verbs
abbrev reading : List String
reading = "get" ∷ "list" ∷ "watch" ∷ []

abbrev updating : List String
updating = "update" ∷ "patch" ∷ "get" ∷ "list" ∷ "watch" ∷ []

abbrev every_verb : List String
every_verb = "create" ∷ "delete" ∷ "update" ∷ "patch" ∷ "get" ∷ "list" ∷ "watch" ∷ []

abbrev changing_status : List String
changing_status = "update" ∷ "patch" ∷ "get" ∷ []

-- workerClusterRoleRules
unfoldable pub worker_cluster_role_rules : List PolicyRule
worker_cluster_role_rules =
    rule every_verb api_group_kube_slice_controllers ("serviceexportconfigs" ∷ [])
    ∷ rule updating api_group_kube_slice_controllers ("clusters" ∷ [])
    ∷ rule ("update" ∷ "patch" ∷ "get" ∷ "list" ∷ "watch" ∷ "create" ∷ "delete" ∷ [])
        api_group_kube_slice_worker ("workerslicegwrecyclers" ∷ [])
    ∷ rule updating api_group_kube_slice_controllers ("vpnkeyrotations" ∷ [])
    ∷ rule updating api_group_kube_slice_worker worker_resources
    ∷ rule changing_status api_group_kube_slice_controllers
        (status "clusters" ∷ status "vpnkeyrotations" ∷ [])
    ∷ rule changing_status api_group_kube_slice_worker (
        status "workersliceconfigs"
        ∷ status "workerslicegateways"
        ∷ status "workerserviceimports"
        ∷ status "workerslicegwrecyclers"
        ∷ [])
    ∷ rule ("get" ∷ "list" ∷ "watch" ∷ "create" ∷ "update" ∷ "patch" ∷ []) "" ("secrets" ∷ [])
    ∷ rule ("create" ∷ "patch" ∷ []) "" ("events" ∷ [])
    ∷ []

-- readOnlyRoleRules
unfoldable pub read_only_role_rules : List PolicyRule
read_only_role_rules =
    rule reading api_group_kube_slice_controllers project_resources
    ∷ rule reading api_group_kube_slice_worker worker_resources
    ∷ rule ("get" ∷ []) api_group_kube_slice_controllers project_statuses
    ∷ rule ("get" ∷ []) api_group_kube_slice_worker worker_statuses
    ∷ rule reading "" ("secrets" ∷ "events" ∷ [])
    ∷ []

-- readWriteRoleRules
unfoldable pub read_write_role_rules : List PolicyRule
read_write_role_rules =
    rule every_verb api_group_kube_slice_controllers project_resources
    ∷ rule reading api_group_kube_slice_worker worker_resources
    ∷ rule changing_status api_group_kube_slice_controllers project_statuses
    ∷ rule changing_status api_group_kube_slice_worker worker_statuses
    ∷ rule reading "" ("secrets" ∷ "events" ∷ [])
    ∷ []

-- What a list of rules allows: one of them names the verb, the group and the resource. No rule here has a
-- wildcard.
unfoldable pub allows : List PolicyRule → (verb group resource : String) → Bool
allows rules verb group resource =
    any
      (λ (r : PolicyRule).
        contains r.verbs verb && (contains r.api_groups group && contains r.resources resource))
      rules
