-- ===== src/Lib.antt =====
-- The OpenWhisk Go runtime: the energy control of an action.
--
-- A container runs one action. openwhisk/actionProxy.go serves /init, which extracts, compiles
-- and starts the action in a cgroup of its own, and /run, one activation. For each activation
-- openwhisk/executor.go (Interact) hands the request to the action and runs beside it a monitor
-- that reads the energy of the node and the CPU time of the container. When the energy of a
-- sequence reaches its threshold, the monitor freezes the process, tells the scheduler, and
-- resumes or kills it on the scheduler's command. The state of a sequence travels from step to
-- step in the parameters, and what was measured goes to a collector.
--
-- The files, and the code that they model:
--   Base: numbers, lists, strings as bytes (Base/Text), Go's int64 as a bit pattern below 2 ^ 64
--     with wrapping arithmetic, and float64 as a parameter (Base/Float64).
--   Freezer: openwhisk/cgroupFreezer.go. Cgroup is cgroupHandle (freeze, unfreeze, kill,
--     waitForEventField), Machine the ActivationController (freezeExecution, resumeExecution,
--     killExecution), Stopping is Stop of openwhisk/executor.go. What the kernel answers to a
--     call is an argument of it.
--   Attribution: openwhisk/metrics_helpers.go, deltaRAPLUJ and attributionDetail.
--   CpuStat: the rest of the reading of the same file. Files is readProcessTicks and
--     ResolveCgroupCPUStatPath on the bytes of the files, Cores is parseCoreMask.
--   Recording: recordMetricsImpl of the same file, with RunMeta and Entry of
--     openwhisk/metricHandler.go; Ledger is about sequences of its calls.
--   Segments: openwhisk/energySegments.go. Marks is freezeMarks, Meter is stepMeter, Settlement
--     is segmentedAttribution, Tracking the methods that move both. Replay states the moves as a
--     relation.
--   Sidecar: openwhisk/energy_state.go, ExtractEnergyState and ReinjectEnergyState over JSON
--     values.
--   Channel: openwhisk/schedulerChannel.go, the HTTP channel to the scheduler, and the delivery
--     loop of openwhisk/pushgateway.go (pushMetrics).
--   Monitor: openwhisk/energyMonitor.go. Cycle is runPauseCycle, on the inputs of Cycle/Inputs,
--     Loop is monitorEnergy, Result the energyMonitorResult; Interact is Interact of
--     openwhisk/executor.go. Called and Driven follow the calls of Freezer/Traces that a monitor
--     makes.
--   Executor: openwhisk/executor.go, several calls of Interact at once on one executor, with their
--     readers, the goroutine that waits for the process, and the process, as a step relation.
--     Released is about the end of the process, Alone about one call, Mixed about two.
--   Run: openwhisk/runHandler.go (runHandler), from the request of an activation to its reply.
--     Run/Request is the body that it passes on to the action.
--   Launcher: golang1.22/lib/launcher.go (the same as that of golang1.23 and golang1.24) and
--     common/gobuild.py.launcher.go, the program around the function of the user. Answers joins
--     it with Start and Interact, line by line over Base/Streams; Managed joins it with Run/Request.
--   Proxy: openwhisk/actionProxy.go and what it serves. Kinds is openwhisk/filetype.go, Folders
--     highestDir and the folders under baseDir, Env is SetEnv, Extraction is ExtractAction of
--     openwhisk/extractor.go, openwhisk/compiler.go and ExtractAndCompile, Launch is NewExecutor
--     and Start of openwhisk/executor.go with StartLatestAction, Init is
--     openwhisk/initHandler.go, Served is ServeHTTP over a sequence of requests to initHandler
--     and runHandler. Command is main of main/proxy.go; Precompiled is about its compilation on the
--     fly.
--   Config: the settings. Numbers is cgroupTimeout and its like, Rapl is readEnergy and
--     readRAPLMax of openwhisk/metrics_helpers.go, Delegation is newCgroupHandle and
--     readEventField of openwhisk/cgroupFreezer.go, Settings those of the channel and the monitor;
--     Attempted and Posted are about pushMetrics and postExecutionKilled under their settings.
--   Archives: openwhisk/zip.go and openwhisk/tar.go, on the entries of an archive and a tree of
--     files. Proxy/Zipped joins Zip and Unzip with the bytes of archives, where filepath.Walk and
--     archive/zip are arguments; Proxy/Extraction takes what Unzip and UnTar write as an argument.
--   Metrics: the store of openwhisk/metricHandler.go.
--   Examples: concrete inputs.
--
-- State is passed explicitly. A method that holds a lock is one step. The clock, the kernel, the
-- energy counter, the network and the scheduler are inputs: a list of rounds or events, or a
-- function of the attempt's number. A list of rounds may end while a pause cycle still waits,
-- which the result then says; there is no fuel elsewhere but the code's own bounds on attempts,
-- and the polls of waitForEventField, whose deadline is finite. A killExecution that does not
-- return gives `none`, and leaves the controller of kill_blocked to the monitor that waits in it.
--
-- Not modelled: log lines other than the monitor's [safety] incidents; the reply of /metric; the
-- formats of the archives, and what the compiler does, which are arguments; symbolic links that a
-- later entry of an archive goes through; several requests to one proxy that are served at the same
-- time, but for their calls of Interact (Executor); the sleep of the monitor between two polls. The
-- folders under baseDir are a list of folders by name, with src and bin as lists of files; a file
-- system that refuses a write is not modelled. encoding/json, net, net/http and float64 are
-- parameters, with the laws that are used stated beside them (Sidecar/Json.Numbers,
-- Attribution/Bounds.IsRounding).
pub mod Archives
pub mod Attribution
pub mod Base
pub mod Channel
pub mod Config
pub mod CpuStat
pub mod Examples
pub mod Executor
pub mod Freezer
pub mod Launcher
pub mod Metrics
pub mod Monitor
pub mod Proxy
pub mod Recording
pub mod Run
pub mod Segments
pub mod Sidecar
