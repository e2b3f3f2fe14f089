-- ===== src/Lib.antt =====
-- gpupgrade: the hub, the agents and the shared state of an upgrade of a Greenplum cluster.
--
-- The command line asks the hub, over gRPC, to carry out one step of the upgrade after another. The hub
-- keeps what it knows in files of a state directory: the configurations of the old and the new cluster,
-- and for each step a directory that holds an empty file named `in.progress`, `failed` or `completed`.
-- The handler of a step resets that directory, marks the step as in progress, does its work by commands
-- (over ssh, rsync, gpstop, gpstart, pg_upgrade) and marks the outcome; `gpupgrade status upgrade` reads
-- the directories back. Agents on the hosts of the segments convert the primaries and report on them.
--
-- Files and code:
--   Base       shared names, lists, texts, Go's integers
--   System     utils/sys_utils.go, helpers/command_execer.go (ExitCodes: utils/custom_error.go).
--              `World` is the file tree, the failures to come, the time and the log of commands; `stat`,
--              `glob`, `open_create`, `remove`, `remove_all`, `mkdir_all` and so on are the calls of
--              utils.System on it
--   Idl        idl/*.proto: the enumerations and messages
--   Checklist  hub/upgradestatus/checklist_manager.go. `Checklist.Lifecycle` has the phases of a step and
--              the relation `Moves` between them, `Checklist.Calm` what happens where
--              nothing fails, and `Checklist.Keeps`, `Stable` and `Outside` what an operation leaves alone
--   Status     hub/upgradestatus: StateCheck is state_checker.go, ConvertMaster (with DoneFile) is
--              pg_upgrade_status_checker.go, ShutDown is shutdown_clusters.go
--   Config     hub/configutils: Segment is config.go, Reader is config_reader.go
--   Cluster    Pair is hub/cluster/cluster_pair.go, Ssher is hub/cluster_ssher/cluster_ssher.go, Pinger
--              is hub/services/hub_ping_agents.go with hub/configutils/rpc_clients.go
--   Hub        hub/services, with db/db.go: SaveConfig (CheckConfig, PrepareInitCluster, and DoInit of
--              cli/commanders/preparer.go), Steps (shareOidFiles, startNewCluster,
--              UpgradeReconfigurePorts, PrepareShutdownClusters), Convert (convertMaster,
--              getMasterPorts, getDataDirPairs), Agents (AgentConns, StatusConversion,
--              UpgradeConvertPrimaries), StatusUpgrade, Hosts (CheckSeginstall, PrepareStartAgents), Checks
--              (CheckVersion, CheckObjectCount, CheckDiskSpace), NewHub (with the configurations of
--              hub/gpupgrade_hub_main.go and agent/gpupgrade_agent_main.go). Session has the works of the
--              steps side by side on one state directory, a call of the checklist or a command at a
--              time. Steps.Shutdown goes from the request to stop the clusters to the status
--   Agent      agent/services: Conversion (CheckConversionStatus), Primaries
--              (UpgradeConvertPrimarySegments), Disk (disk_space.go, upgrade_status.go and
--              createIfNotExists of agent_server.go)
--   Server     Start, Stop and closeConns of hub/services/hub.go; Start and Stop of
--              agent/services/agent_server.go are the same code. Two threads, a step at a time
--   Cli        the command line. Session has the requests to the hub (idl/cli_to_hub.proto) and what a run
--              sees and writes; Checkers, Upgrader, Preparer and Reporter are cli/commanders; Flags and
--              Setup are the flags of cli/gpupgrade_main.go; Commands is cli/commands.go, a function
--              `run_…` for the Run of each command; Main is `main`
--   ShellParser  shellparsers/monitor_shell_parser.go
--   Tests      runs at concrete data, and the theorems at such data
-- A function has the name of the Go function in snake case; a method takes its receiver, and returns it
-- too where it changes it. What changes the world is a `Sys` action.
--
-- Parameters, for what is not in the repository: what a command does (`Execer`, which sees the commands
-- before it), JSON (`Codec`), the order in which Go visits a map (`MapOrder`, `SegmentOrder`), the
-- database (`Database`), the environment with strconv.Atoi (`Env`), gRPC (`AgentNet`, `Agents`,
-- `DiskNet`, `Pings`, and `dial` and `call` of `Machine`), gosigar (`Sigar`), and cobra (`Cobra`), of which
-- the model asks that it runs a command only if the flags that the command needs were given.
--
-- Fuel and bounds: the search of a done file has fuel for one more line than the file has characters,
-- and each line takes at least one; polling and the wait for connections are the code's own ten and
-- three rounds. The numbers of a message wrap as `int32`.
--
-- What the model leaves out: logging (but for the lines that the command line writes), sleeps, and,
-- but for Start and Stop, mutexes. What a handler starts with `go` and does not wait for is an action of
-- its own: CheckSeginstall, PrepareStartAgents and PrepareShutdownClusters return it (`Background`), and
-- shareOidFiles and startNewCluster are such actions. `Hub.Session` lets them interleave, with at most
-- one work of a step at a time; a goroutine that a handler waits for runs to its end where it starts.
-- What gRPC does while it serves is a step; net.Listen and Serve may fail. The regular expression of the shell
-- parser is a matcher written for it. A path is the list of its components, and the state directory
-- has no character that a glob pattern reads in a special way. A text is measured by its characters,
-- so it stands for an ASCII file. A call that fails changes no file, so a RemoveAll or MkdirAll that
-- stops half-way is not covered. Directories have no times. The text of an error within an error is
-- left out. An upgrade's own programs (pg_upgrade, gpstop, gpstart) are known by their exit and by
-- the files the program reads.
pub mod Base
pub mod System
pub mod Idl
pub mod Checklist
pub mod Status
pub mod Config
pub mod Cluster
pub mod Hub
pub mod Agent
pub mod Server
pub mod ShellParser
pub mod Cli
mod Tests
