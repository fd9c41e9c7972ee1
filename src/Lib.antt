-- ===== src/Lib.antt =====
-- clusterbook-operator: the reconcilers of a Kubernetes operator that reserves IPs at a clusterbook
-- server and publishes them, as labels and annotations of ArgoCD cluster Secrets, as ConfigMaps, as
-- Cilium pools and on Services, and that installs vclusters and registers them with ArgoCD.
--
-- Parts:
--   Prelude       Go's maps, strings and integers as far as they are used. A map is an association
--                 list, nil the empty one; a loop over a map, which has no order in Go, runs from
--                 its last entry to its first. An `int` wraps at 64 bits.
--   Exec          errors as values, and code that may fail and changes the state of the world; what
--                 was written before an error stays written.
--   World         everything that is not the operator's code, as a parameter: the Kubernetes API as
--                 seen through controller-runtime's client, the client of another cluster
--                 (NewTargetClient), the HTTP transport, a custom probe, JSON, kubeconfigs,
--                 certificates, SHA-256, and the helpers of controllerutil and apimachinery.
--                 World/Laws names what some theorems ask of it, each as a hypothesis.
--   Api           the custom resources (api/v1alpha1/*_types.go, types.go).
--   Client        the REST client (pkg/client/client.go).
--   Shared        the provider configuration and its client (controller/shared.go), and, in Provider
--                 and Teardown, the first and the last steps that the handlers have in common.
--   Owned         which keys the operator wrote to a Secret (controller/owned_metadata.go).
--   Readiness     the readiness probe (controller/readiness.go, and probe of controller/reconciler.go).
--   Cluster       the reconciler of ClusterbookCluster (controller/reconciler.go and, for
--                 restConfigFromArgo and the constants, controller/readiness.go). Metadata has the
--                 labels and annotations, Server the URL and the credentials, Reservation the IP,
--                 its range and its DNS record, Secrets the Secrets that are read and written,
--                 Reconcile the handlers Reconcile and finalize, and Reconcile/Publish the render
--                 and the enrich path. Two files put reconciles in sequence: Metadata/History runs
--                 them on one Secret beside the writes of others, and Lifecycle has the steps that
--                 a CR takes between edits and reconciles. In Lifecycle, Run and Published say what
--                 one reconcile does, Recovered what becomes of a cluster that was found in the
--                 listing.
--   Single        the reservation of one IP, which the other reconcilers each spell out alike.
--                 Lifecycle is about a CR that holds an IP already, Contract what the
--                 reservations rely on of the clusterbook server, as a hypothesis, and Retry a
--                 reservation that is made again.
--   LoadBalancer  the reconciler of ClusterbookLoadBalancer (controller/loadbalancer_reconciler.go):
--                 Service, Pool, Reconcile. Service/Histories puts patches in sequence, and
--                 Lifecycle has the steps of a balancer's life and what a reconcile leads to;
--                 Reconcile/Release and Reconcile/PoolDeletion are about deletion.
--   Allocation    the reconciler of ClusterbookAllocation (controller/allocation_reconciler.go):
--                 Sinks, Reconcile. Sinks/Coexist has two allocations on one Secret, Written what
--                 a reconcile writes to the sinks, Lifecycle the steps of an allocation's life and
--                 what a reconcile does, Release the deletion.
--   Vcluster      the reconciler of Vcluster (controller/vcluster_reconciler.go): Target the host
--                 cluster, Application the chart and its values, Kubeconfig its reading, rewriting
--                 and publication, Child the ClusterbookCluster that registers the vcluster,
--                 Reconcile the handlers, Lifecycle the steps that a CR takes, and Run and Finished
--                 what one reconcile does.
--   Manager       the entry point (cmd/main.go) and the SetupWithManager methods of the reconcilers:
--                 what main hands to controller-runtime's manager, which is a parameter, and what
--                 its exit code tells.
--   Tests         concrete objects, a concrete world, and the theorems applied to them.
--
-- A function of the source has the same name here, in lower case; a handler is cut where its callees
-- or its cases need a name. A reconcile is a function of the state of the world, so the writes of one
-- reconcile happen in order with no other writer in between; a CR that is mutated is passed on as a
-- value, as the API server's answer where the source writes it. Bytes are texts. Where the source
-- dereferences a nil pointer, which its CRDs' admission rules are there to exclude, the model fails
-- with that error, as controller-runtime reports the panic. Log lines are left out. Every loop is a
-- structural recursion, and printing a number a recursion on accessibility: there is no fuel.
--
-- A history and a life are sequences of steps of one object: the API server's optimistic locking lets a
-- write through only if nobody wrote in between, so a reconcile whose write succeeds is one step, and
-- one whose write fails is none. An edit by others may change the spec and the metadata, not the
-- status, which is a subresource.
--
-- Not modelled: the registration of the types with a scheme, the parsing of the command line and the
-- logger, the default of NewTargetClient, generated code, and everything that is not Go. The probe's
-- and the HTTP clients' timeouts belong to the transports, which are parameters. chartValues that are
-- the JSON null, of which Go makes a nil map that cannot be written to, are left out.
pub mod Prelude
pub mod Api
pub mod Exec
pub mod World
pub mod Client
pub mod Owned
pub mod Shared
pub mod Readiness
pub mod Cluster
pub mod Single
pub mod LoadBalancer
pub mod Allocation
pub mod Vcluster
pub mod Manager
pub mod Tests
