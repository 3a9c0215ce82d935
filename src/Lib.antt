-- ===== src/Lib.antt =====
-- A model of the machine config operator, which brings the nodes of a cluster to the configuration of their
-- pools. A pool names a rendered configuration and, with layering, an image. The node controller targets
-- nodes of a pool by annotations, few enough at a time, and sums their states up in the status of the pool.
-- The daemon of a node reports by annotations and asks the drain controller to cordon, drain and uncordon
-- it. The build controller follows the build of a layered pool by conditions. The merges keep the objects of the operator as they are required, and a watcher on the control plane
-- takes an API server that fails out of the load balancing.
--
-- The parts and the code that each one models:
--   Common           tests, lists, integers, and maps of texts as Go has them; no code of its own.
--   Kube             the nodes and pools of the API, with the fields that the code below reads.
--   Conditions       pkg/apihelpers/apihelpers.go: the condition lists of pools and controller configs.
--   Layered          pkg/controller/common/layered_node_state.go and layered_pool_state.go: the state of a
--                    node against its pool, and the annotations that target it.
--   NodeController   pkg/controller/node. Pools has getPoolsForNode, getPrimaryPoolForNode and
--                    getNodesForPool; Status has status.go; Candidates has maxUnavailable,
--                    getAllCandidateMachines and the choice in updateCandidateMachines; Sorting has the
--                    comparison of sortNodeList; Server has the calls that change single nodes, Sync
--                    syncMachineConfigPool with syncStatusOnly, Masters the label and the taint of the
--                    masters, and Events what the handlers of a node enqueue.
--   Drain            pkg/controller/drain/drain_controller.go: syncNode, drainNode,
--                    cordonOrUncordonNode, and the calls on the work queue.
--   Daemon           pkg/daemon/update.go and drain.go: newMachineConfigDiff, the action that follows an
--                    update, and isDrainRequired; its child Kargs has generateKargs and the
--                    functions that split kernel arguments, Writer the annotations of
--                    pkg/daemon/writer.go, and Prepare prepUpdateFromCluster of daemon.go.
--   Disk             pkg/daemon/file_writers.go and the checks of on_disk_validation.go: files, and in Units
--                    the systemd units; Stale has updateFiles and deleteStaleData of update.go.
--   Update           pkg/daemon/update.go: update, updateHypershift and updateImage with what is deferred to
--                    take each stage back (Apply), the users and their keys, the changes of the operating
--                    system (System), and reconcilable with CalculateConfigFileDiffs of
--                    pkg/controller/common/helpers.go (Reconcile).
--   Build            pkg/controller/build: pool_state.go, and of build_controller.go the updates of a pool on
--                    the reports of builds and pods (Updates) and when a build starts (Decisions).
--   MachineConfigs   pkg/controller/common/helpers.go: MergeMachineConfigs.
--   ResourceMerge    lib/resourcemerge. Values has the setters, Security the contexts and probes, Lists the
--                    loops over named values, Pods the containers and workloads, Configs machine configs,
--                    pools and, in its child, the controller config.
--   Operator         pkg/operator: the cluster operator object with version.go, and of status.go the
--                    conditions on it (Status), the skew of the kubelets (Skew) and the pools (Pools, with
--                    the poll of syncRequiredMachineConfigPools); All has syncAll of sync.go.
--   Watcher          cmd/apiserver-watcher/run.go: the health tracker.
--   Tests            the theorems at concrete inputs, and runs of the model.
-- A child module that is named for a property holds proofs, and its parent the definitions.
--
-- Names follow the code: getAllCandidateMachines is get_all_candidate_machines. A pointer is an Option, and
-- a map an association list under an Option for nil. A function that changes an object returns the new one.
-- A panic on a nil pointer or an index is none where the text says so. An error of Go is none or a
-- constructor of an error type, without its message.
--
-- Numbers. Counts are natural numbers; the counts in a status are int32 and wrap, as in the code, and the
-- theorems on the status ask for fewer than 2 ^ 31 nodes. Priorities, delays of probes and user ids are
-- integers. Durations are nanoseconds, and a difference of times is 0 where the clock went back.
--
-- Loops are structural recursion on the list that they range over. The backoff of cordonOrUncordonNode is
-- recursion on the number of its steps, which the code bounds in the same way. The loop that splits kernel
-- arguments has as many rounds as the text has characters, and each round consumes one; where rounds
-- run out before the end of the text, split_rounds gives none.
--
-- What the code takes from elsewhere is a parameter. Label selectors, listers and the scaling of a
-- percentage are arguments of the functions that use them, and so are the parser of Ignition and the
-- judgement of a change of the registries in Daemon and Update. In Update the writing of files and units
-- is a function of the files, which Disk has on its own, World says which commands succeed, and what rpm-ostree
-- does is the list of the commands that it has queued. Library of MachineConfigs.antt has the
-- Ignition library and the stable sort, which is assumed to keep the configs. Machinery of
-- ResourceMerge/Values.antt has the semantic equality and the functions of library-go, and Lawful what is
-- relied on: the equality is reflexive, and each function settles. Api of Drain.antt has the API server
-- and the drain helper over a state of their own, of which nothing is assumed. In Build an update is one
-- try on the pool that it reads, and Answers says which calls succeed. The sort of a rollout is assumed to
-- keep the number of nodes. The tests have instances of all of these. Env of NodeController/Sync.antt is
-- what a sync finds, and its answers say which calls succeed: a call that fails changes nothing, and what
-- is tried again after a conflict is one call. World of Operator.antt is the same for the operator, and
-- Lawful has what is relied on in the helpers of library-go: a condition that was set is found, and the
-- others are found as before. System of Disk.antt decodes data URLs and gzip, knows users, groups and
-- packages, and says which system calls fail and which units systemctl enables and disables; the links
-- that systemctl keeps are not on the disk of the model.
--
-- Not modelled: the informers, queues and workers, logs and events; the loop of the daemon; the render,
-- template, kubelet and container runtime controllers; how an image is built; the tasks of the operator,
-- and the config server. In ensurePodSpec the arrays that append may share are separate values. In Disk an
-- error ends without the disk that it leaves.
pub mod Common
pub mod Kube
pub mod Conditions
pub mod Layered
pub mod Drain
pub mod Daemon
pub mod Disk
pub mod Build
pub mod NodeController
pub mod Operator
pub mod Update
pub mod MachineConfigs
pub mod ResourceMerge
pub mod Watcher
pub mod Tests
