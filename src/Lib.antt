-- ===== src/Lib.antt =====
-- The KubeSlice controller: an operator that joins Kubernetes clusters into slices with an overlay network.
--
-- A user writes a SliceConfig. The admission webhook checks it (service/slice_config_webhook_validation.go).
-- The services then derive a WorkerSliceConfig for each cluster, with an octet that fixes the cluster's subnet
-- (service/worker_slice_config_service.go, util/common.go), a pair of WorkerSliceGateways for each two clusters
-- (service/worker_slice_gateway_service.go), and a VpnKeyRotation that renews the gateways' certificates
-- (service/vpn_key_rotation_service.go).
--
-- Common: lists, maps and tests that all parts share.
-- Go: Go's results, errors and panics (Results), functions that call the API server (Effect), texts (Text) and
--   networks (Net). `M W A` takes the state W of the API server and returns the outcome with the state that is
--   left. A nil pointer or an index out of range is `panic`.
-- Resources: the API objects of apis/controller/v1alpha1 and apis/worker/v1alpha1 as records, with the fields
--   that the modelled functions read or write. A time is a number of seconds.
-- Platform: the client of the API server, the events, the metrics and the clock, which are parameters; and the
--   wrappers GetResourceIfExist, ListResources, CreateResource, UpdateResource and DeleteResource of
--   util/reconciliation_utility.go; Reporting: calls with an event and a counter for success and failure.
-- Util: util/common.go (Arrays, Ipam, Subnets), and of util/reconciliation_utility.go the names of projects
--   (Projects), the finalizers (Reconciliation, with RemoveWorkerFinalizers of service/service_helper.go),
--   GetOwnerLabel (OwnerLabels), and the comparison and the filter of labels (Labels).
-- WorkerConfigs: ComputeClusterMap (Octets), cleanUpSlices, ListWorkerSliceConfigs and
--   DeleteWorkerSliceConfigByLabel (Cleanup), CreateMinimalWorkerSliceConfig and
--   CreateMinimalWorkerSliceConfigForNoNetworkSlice (Minimal, Labels), which return the label map that they
--   change, and ReconcileWorkerSliceConfig (Derivation, and Recreation for deleted worker slices).
-- Gateways: calculateGatewayNumber (Numbers), BuildNetworkAddresses and buildCertPairRequest (Addresses),
--   GenerateCerts and CreateJob of service/job_service.go (Certs), the pair of gateways of two clusters (Pairs),
--   the pairs of all clusters (Creation), cleanupObsoleteGateways and DeleteWorkerSliceGatewaysByLabel (Cleanup),
--   the node addresses (Nodes), DeleteSecret of service/secret_service.go (Secrets), and
--   ReconcileWorkerSliceGateways (Reconcile). A function that writes into the label map of its caller returns it.
-- SliceWebhook: the webhook's validations (Network, Isolation, Clusters, Updates, Rotation) and handlers
--   (Handlers: ValidateSliceConfigCreate, ValidateSliceConfigUpdate and ValidateSliceConfigDelete), with the
--   theorems on creation (Admission), on updates (Frozen), on the life of a slice (History), on the
--   gateways' entries (ServiceTypes) and on the external gateways (ExternalGateways). Field errors keep their
--   type and path; their texts are shortened.
-- KeyRotation: verifyAllJobsAreCompleted (Jobs), triggerJobsForCertCreation and
--   constructClusterGatewayMapping (Certificates), reconcileVpnKeyRotationConfig (Reconcile, Counting), and
--   CreateMinimalVpnKeyRotationConfig, ReconcileClusters and ReconcileVpnKeyRotation (Outer). The
--   service's flag jobCreationInProgress is part of its state; the services for gateways and worker slices are
--   an interface (Services), as in the code.
-- Slices: service/slice_config_service.go: the namespaces taken from the default slice, with the array that the
--   loop shares (Namespaces), the deletions, those of service/worker_slice_gateway_recycler_service.go among
--   them (Deletion), and ReconcileSliceConfig, which composes the other services (Reconcile).
-- ServiceDiscovery: service/worker_service_import_service.go (Imports; Copy with ReconcileWorkerServiceImport) and
--   service/service_export_config_service.go (Exports).
-- DefaultSlices: service/default_slice_service.go: what a cluster adds to the default slice of its project
--   (Additions), what is dropped for it (Removals), and the two operations (Operations).
-- QosConfigs: service/slice_qos_config_service.go, which touches the worker slices that use a changed profile.
-- Webhooks: the validations of rotations (Rotations), worker slices and gateways (Workers), service exports
--   (Exports), QoS profiles (QosConfigs), projects and clusters (Projects and Clusters,
--   with util/validations.go), and their deletions (Deletions).
-- AccessControl: service/access_control_service.go: the roles (Roles) with the rules of
--   service/kube_slice_resource_names.go (Rules), the service accounts and role bindings of a list of names
--   (Accounts), the obsolete ones (Obsolete), and the access of users and clusters (Users). `Access` holds the
--   name patterns without their `%s`, and the access type.
-- Clusters: service/cluster_service.go: a cluster that is registered (Registration), one that is being deleted
--   (Deregistration), and ReconcileCluster (Reconcile).
-- Projects: service/namespace_service.go (Namespaces) and service/project_service.go (Reconcile).
-- Witnesses: the theorems at concrete inputs, with a small API server in memory.
--
-- Bounds and fuel. Numbers are natural; where Go subtracts below zero the model returns an integer, and the
-- expiry time, a creation time plus the interval in days less one hour, is taken to be no earlier than the
-- epoch. The printing of a number has one round for each unit of it and one more, and that of a loop of
-- binary powering one for each unit of the exponent; lemmas beside them show that this is enough. The products of
-- intPow wrap at 64 bits; the other products of the arithmetic on subnets stay far below 2^63. A map of Go is an
-- association list that is read by key, and without entries stands for an absent one where that matters; where
-- the order in which a map is ranged over matters, it is a parameter (range_keys). strings.ToLower is that of ASCII.
--
-- Not modelled: what other clients write between two calls; resource versions, so that an update leaves the
-- object in memory as it was written; the difference between an absent list and an empty one, which
-- reflect.DeepEqual makes; IPv4 addresses that are written as IPv6; the API group in the reference of a role
-- binding. The parsing of JSON, of floating-point numbers and of IP addresses, and the copies of the package copier
-- are parameters. Events, metrics, logging, start-up and generated code are glue and I/O.
pub mod Common
pub mod Go
pub mod Resources
pub mod Platform
pub mod Util
pub mod WorkerConfigs
pub mod Gateways
pub mod SliceWebhook
pub mod KeyRotation
pub mod ServiceDiscovery
pub mod Slices
pub mod DefaultSlices
pub mod QosConfigs
pub mod Webhooks
pub mod AccessControl
pub mod Clusters
pub mod Projects
pub mod Witnesses
