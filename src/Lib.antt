-- ===== src/Lib.antt =====
-- A verification library for the scheduler simulator, simulator/.
--
-- The simulator runs the Kubernetes scheduler with every plugin wrapped. A wrapped plugin calls the
-- extender before, the original plugin, and the extender after, and records the original's result in
-- the result store; the calls of scheduler extenders are recorded in a store of their own. The store
-- reflector writes the results of both stores on the pod and then deletes them. The plugins' store
-- gets the weights of the score plugins from the configuration, which is converted so that the
-- scheduler runs the wrapped plugins. One of the plugins, the power-aware one, ranks nodes by TOPSIS.
-- Resources come into the simulator by the resource applier, from a snapshot, or from a recording of
-- a cluster's events that is replayed.
--
-- Files and code:
--   Common/Tests, Lists, Outcome, Int: Boolean tests, lists, calls that return or panic, int64.
--   Common/GoMap: Go's maps with string keys, nil or made; a write to a nil map panics.
--   Common/Errors, Kubernetes: errors that wrap one another; names of resources, fields of objects.
--   ResultStore: simulator/scheduler/plugin/resultstore/store.go and plugin/annotation/annotation.go.
--     Defs has result, Store, New, newKey, newData and the steps that every method begins with;
--     Calls the methods AddFilterResult .. DeleteData (add_filter_result .. delete_data) and
--     histories of them; Stored has GetStoredResult and the add..ToMap methods; Annotation the keys.
--     Writes, Nodes, Recorded, Safety, Texts, Nominations, Fills, Annotations, Deleted and Keys have
--     the proofs.
--   WrappedPlugin: simulator/scheduler/plugin/wrappedplugin.go. Framework and Action have what the
--     code uses of the framework and the state that a method acts on (an environment of the original
--     plugin and the extenders, and the store); Plugin the extenders, the options and
--     NewWrappedPlugin; Methods/Filtering, Scoring and Binding the methods, with what they share in
--     Methods/Guards. Requests has sequences of calls by the scheduler. Safety, Methods/Safety,
--     Records, Normalized and Nominated have the proofs.
--   PowerAware: simulator/scheduler/plugin/powertopsis/plugin.go. Criteria has the configuration, the
--     power model, the criteria of a node and getExtreme; Plugin has PreScore, loop by loop, and
--     Score. Float has the parameter for float64 with the facts that single theorems assume. Keys,
--     Scores, Picks, Extremes, Dominance and NotANumber have the proofs.
--   PluginSet: simulator/scheduler/plugin/plugins.go. Defs has ConvertForSimulator, mergePluginSet and
--     getScorePluginWeight; Trim has strings.TrimSuffix; Factories has NewRegistry and
--     newPluginFactories. Merge, Weights and Converted have the proofs.
--   Extender: simulator/scheduler/extender. Store is resultstore/resultstore.go, Client the calls of
--     an endpoint in extender.go, Config newExtender, createExtenders and the override of the
--     configuration, Service the calls in service.go. Recorded has the proofs.
--   Reflector: simulator/scheduler/storereflector and simulator/util/retry.go. Defs has the stores and
--     the loops over them, History updateResultHistory, Handler the handler with updateFunc and the
--     retries. Trimmed, Collected, Attempts and Written have the proofs.
--   ResourceApplier: simulator/resourceapplier. Functions has the maps of functions and the loops,
--     Resource the mandatory functions of resource.go, Service New, Create, Update and Delete; Library
--     has the clients and the converter. Registered and Pods have the proofs.
--   Recorder, Replayer: simulator/recorder/recorder.go and simulator/replayer/replayer.go. Defs and
--     Loop have the recorder's functions and its goroutine, Replayer/Defs the replay. Log, Lines and
--     RoundTrip have the proofs, on the recorder, the replayer, and both together.
--   Snapshot: simulator/snapshot and simulator/util/semaphored_errgroup.go. Snap has Snap and the list
--     methods, Apply has Load and the apply methods, Convert the functions of utils.go. Tasks, Errors
--     and RoundTrip have the proofs.
--   Reset: simulator/reset/reset.go. Defs has NewResetService and Reset; Entries and Restored have the
--     proofs.
--   Restart: simulator/scheduler/scheduler.go and simulator/scheduler/config/config.go. Defs has
--     UpdateSchedulerConfig, restartContainer, RestartScheduler and ResetScheduler; Outcomes has the
--     proofs.
--   Watcher: simulator/resourcewatcher/eventproxy.go. Defs has the list that is sent first and the watch
--     loop; Watched has the proofs.
--   Tests and Samples modules: sample inputs on which the theorems apply.
--
-- State and calls: a method of a store runs under the lock from its first line to its last, so it is
-- one step, and concurrent calls are the sequences of steps. The recorder's handlers and its flush are
-- steps too: the list is taken under the lock. The goroutines of an error group run one after the
-- other in an order that is a parameter. A panic is a value, and so is an error.
--
-- Fuel: the decimal text of a number has the number itself, which is more than its divisions by ten;
-- the loop of Replay has one more than the bytes of the file, of which each turn but the last reads
-- one at least; a retry has the steps of its backoff. The other loops are structural recursions. An
-- int64 product is taken modulo 2^64.
--
-- Nil pointers: the node of a NodeInfo, the metadata of a snapshot's objects and the first profile of
-- a configuration are taken to be there, and a plugin's weight that is nil to be 0, which is what the
-- conversion to the internal type makes of it.
--
-- Parameters: json.Marshal and Unmarshal, the text of a time.Duration, float64 and its functions, the
-- order in which Go visits a map, the cycle state, the framework's types, the original plugins and the
-- extenders, InTreeMultiPointPluginSet and the registries, strings.EqualFold; the Kubernetes clients,
-- objects and converters, the REST mapper, the HTTP client and TLS, file writes, ExponentialBackoff,
-- etcd, the container client and YAML.
-- A plugin extender acts on the environment and adds custom results through its handle; it does not
-- delete results. The functions that a user gives the resource applier act on the cluster; what they
-- or removeUnnecessaryMetadata do to the caller's object in place is not seen.
--
-- Not modelled: logging, the decoding of the power-aware plugin's arguments, NewPluginConfig of
-- plugins.go, the conversion of whole configurations in scheduler.go and GetSchedulerCfg, the rest
-- of the resource watcher, the syncer and the importer, the server and its configuration, the
-- process start, the scenario operator, the generated code and the mocks (I/O, glue, or left out).
pub mod Common
pub mod ResultStore
pub mod Snapshot
pub mod Extender
pub mod PowerAware
pub mod Recorder
pub mod Reflector
pub mod Replayer
pub mod Reset
pub mod ResourceApplier
pub mod Restart
pub mod Watcher
pub mod WrappedPlugin
pub mod PluginSet
