-- ===== src/Lib.antt =====
-- Verification library of the AWS Multi-ENI controller.
--
-- The controller watches NodeENI resources. For each matching node it creates an elastic network
-- interface (ENI) in EC2 and attaches it to the instance; when the resource is deleted it detaches
-- and deletes the ENIs before it lets the resource go. The resource is pinned meanwhile by a finalizer.
--
-- Types: the NodeENI resource (pkg/apis/networking/v1alpha1/types.go).
-- Cluster: what the reconciler calls: the EC2 operations of pkg/aws/interface.go, the Kubernetes API,
--   commands in the ENI Manager pod, the clock. They are parameters: a call is a function of the world
--   that gives an answer and the next world, so that a failure or the step of another party can come
--   at every call.
-- Wait: `wait.ExponentialBackoff`, a parameter with its documented behaviour as two laws.
-- Controller.Reconcile: Reconcile, processNodeENI, processNode and createMissingENIs
--   (pkg/controller/nodeeni_controller.go). An object that is deleted goes to Controller.Deletion; for
--   any other one the nodes are listed, and each goes through Controller.Verify, Controller.Subnets and
--   Controller.Creation; at the end Controller.Stale drops what is left over. The object in memory is
--   passed on from step to step, as the code changes it in place.
-- Controller.Verify: verifyENIAttachments and what it calls (the same file).
-- Controller.Subnets: getAllSubnetIDs and determineSubnetID (the same file).
-- Controller.Creation: createENIInSubnet, attachENI and createAndAttachENIForSubnet (the same file). A
--   Go function that may panic ends in a value, an error or a panic.
-- Controller.Deletion: handleDeletion, isCleanupTimedOut and setCleanupStartTime
--   (pkg/controller/nodeeni_controller.go). It uses Controller.Updates for its writes and
--   Controller.Coordinated for the cleanup.
-- Controller.Updates: updateNodeENIWithRetry, updateNodeENIStatusWithRetry, addFinalizer and
--   removeFinalizer of the same file: five attempts, with a fetch and a merge after each conflict.
-- Controller.Coordinated: the coordinated cleanups of the same file and parallelCleanupENIs
--   (pkg/controller/parallel_cleanup.go), over Controller.Parallel, the worker pool of that file,
--   Controller.Coordination, the lock manager (pkg/controller/coordination.go), and
--   Controller.Cleanup, cleanupENIAttachment and what it calls.
-- Controller.DeviceIndex: buildAttachmentMaps, mergeDeviceIndices, determineDeviceIndex and the
--   searches for a free device index (pkg/controller/nodeeni_controller.go).
-- Controller.Stale: removeStaleAttachments and its checks (the same file).
-- Dependency: the dependency graph and, in Dependency.Manager, the dependency manager
--   (pkg/controller/dependency_manager.go). Dependency.Reaches has the paths of the graph.
-- Sriov: the configuration of the SR-IOV device plugin (pkg/eni-manager/sriov/manager.go): updates,
--   cleanup and comparison in memory; Sriov.File: load, save and the operations on the file. JSON and
--   the file system are parameters.
-- Util: GetInstanceIDFromProviderID and MergeMaps (pkg/util/aws.go).
-- Retry: error categories, strategies and WithCategorizedRetry (pkg/aws/retry/retry.go).
-- Breaker: the circuit breakers: round AWS calls (pkg/aws/retry/circuit_breaker.go) and, in
--   Breaker.Dpdk, round DPDK operations (pkg/eni-manager/dpdk/circuit_breaker.go).
-- Mapping: the store of interface mappings (pkg/mapping/interface_mapping.go).
-- Prelude: shared names, Boolean tests, integers, maps, calls. Controller.Sample: a small cluster in
--   which the examples of the Tests modules run.
--
-- Methods under a mutex are single steps. Between two calls of the lock manager other operations may
-- act; that is a parameter `others`. The worker pool takes a scheduler that chooses each step, also
-- the moment when a worker sees the context done. A cleanup under the pool is one step of the pool:
-- the steps of other workers inside it come only through `others`.
--
-- Fuel: the search for a device index runs on the number of used indices, which is enough to pass all
-- of them. The pool runs on a measure that each of its steps lowers, so that it ends with no worker
-- left. The depth-first searches of the dependency graph run on the number of its dependencies and two
-- more: each level below the first visits a dependency that is not yet on the way. The retry loops end
-- after their fixed number of attempts.
--
-- Integers are unbounded: counters and indices of the code stay far below 2^63. Errors are texts, as
-- the code reads them with `strings.Contains`; the context that it wraps round an error is left out.
-- Not modelled: logging, events, metrics, the contents of commands in the pod, and of the node
-- agent (pkg/eni-manager) all but Sriov and Breaker.Dpdk.
pub mod Breaker
pub mod Cluster
pub mod Controller
pub mod Dependency
pub mod Mapping
pub mod Prelude
pub mod Retry
pub mod Sriov
pub mod Types
pub mod Util
pub mod Wait
