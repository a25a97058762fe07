-- ===== src/Lib.antt =====
-- FaST-GShare: GPU sharing for Kubernetes pods.
--
-- A controller manager (internal/apps/fastpod-controller-manager) watches FaSTPod objects, creates and
-- deletes their pods, and keeps for every node a table of GPUs with the pods on each. A configurator
-- on each node (internal/apps/fast-configurator) offers GPUs, switches MPS on and off, and receives the
-- list of pods of a GPU. The two talk gRPC (pkg/proto/seti/v1/configurator.proto).
--
-- Which file models what:
--   Common        helpers: signed integers with Go's 64-bit wrap-around, maps as association lists,
--                 `float64` as a type with operations, calls that may panic, the order of texts
--   Bitmap        pkg/libs/bitmap/bitmap.go, the client ports of a node
--   Types         pkg/types/request.go
--   Proto, Kube   the messages and the Kubernetes objects that the handlers read
--   Manager       gpu_manager.go, scheduler.go, new_pod.go, config_manager.go: State is the data; Fit and
--                 Schedule are `canFit` and `ScheduleRequest`; Request is `RequestGPUAndUpdateConfig`;
--                 Remove is `removePodFromList` and RemoveAll `removeFaSTPodFromList`; Validate is
--                 `getPodRequestFromPod`, `validatePodRequest` and `resourceValidityCheck`; Config is
--                 `updatePodsGPUConfig`. The other files of Manager hold proofs.
--   Nodes         node_init.go, and the liveness check of config_manager.go: Join is what
--                 `handleNodeConnection` does up to the first heartbeat, Liveness its heartbeat loop and
--                 `checkNodeLiveness`; Cluster is the controller manager as a system of steps, and
--                 Interleaved what may happen between scheduling and booking
--   Messages      pkg/types/types.go, the frames of the messages on a connection
--   Replicas      controller_util.go and controller.go: Pods and Order are the counts and the deletion
--                 order; Scale is the choice of the pods to delete; Batch is `slowStartbatch`
--   Controller    new_pod.go and controller.go: NewPod is `newPod`; Create is the creating branch of
--                 `reconcileReplicas`, which schedules, books and creates a pod in each call;
--                 ScaleDown is its deleting branch; Reconfigure is `reconcileResourceConfig`
--   Configurator  mps.go, virtual_resource.go, config.go and server_methods.go: Mps is the life of an MPS
--                 server, Resource is `Access` and `Release`, Discovery is
--                 `getAvailableVirtualResources` over the Devices that NVML describes, Server and
--                 Handlers are the handlers of the gRPC server, Operations what they do in a row
--
-- The handlers of the manager take the package's variables `nodes`, `nodesLiveness` and
-- `fastPodToPhysicalGPUs` as one record and return the new one, under the mutex that the code holds.
-- What the code reaches through a pointer is written back to the map that holds the pointer. A call
-- that panics (a nil pointer, a failed type assertion) is an outcome of its own, and ends the process.
-- The calls that a handler makes of configurators are listed in its result, and their answers are a
-- parameter: one answer for each address and device during a handler.
--
-- The loop of `slowStartbatch` recurses on fuel, count + 1, which is enough: each batch makes at least
-- one call, and no more than are left. All other loops are structural.
--
-- Parameters: floating point numbers, of which no theorem needs a law; the functions of `strconv` and
-- `strings`; encoding/json, known to give back what it wrote and to write no line break; readiness,
-- availability and deletion cost of a pod (k8s.io); `sort.Sort`, known to permute; the logarithm, known
-- to lie between 0 and 63; the text of `RandStr`; the operating system and NVML, by what they answer
-- during one operation: at each refresh it is asked about the devices anew.
--
-- The steps of Nodes.Cluster are those of the goroutines of the node connections, of the liveness
-- ticker and of the workers, in any order. A step is what a goroutine does under `nodesInfoMtx`
-- or `nodesLivenessMtx`, and is taken whole; so is `reconcileResourceConfig`, which takes no
-- mutex. The answers to a step (the messages of a connection, the API server's pods, the
-- configurators' answers) are parameters of that step. The handlers of a configurator are taken
-- whole as well, one after the other.
--
-- Not modelled: informers, work queues and the Kubernetes client, with `syncHandler`; owner
-- references; the sending side of the heartbeats and the files that a configurator writes
-- (`UpdateMPSConfigs`); the loops of pkg/mig over NVML profiles, which are parameters of
-- discovery; the overlap of the goroutines that delete pods, which are taken one after the other;
-- logging; generated clients, the database entities and the OpenFaaS provider.
pub mod Common
pub mod Bitmap
pub mod Types
pub mod Proto
pub mod Kube
pub mod Manager
pub mod Messages
pub mod Nodes
pub mod Controller
pub mod Replicas
pub mod Configurator
