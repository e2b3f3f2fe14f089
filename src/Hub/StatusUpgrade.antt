-- ===== src/Hub/StatusUpgrade.antt =====
-- hub/services/hub_status_upgrade.go
pub mod Laws
pub mod Entries
use gpupgrade.Base.{
  String, ℤ, Bool, Option, none, some, List, [], ◌∷◌, if◌then◌else◌, join_text, contains_text,
}
use gpupgrade.System.{
  FilePath, ◌/◌, path_text, Node, Result, ok, err, Sys, pure, ◌>>=◌, stat, Execer,
}
use gpupgrade.Idl.{
  UpgradeSteps, StepStatus, UpgradeStepStatus, pending, running, complete, failed, check_config,
  seginstall, prepare_init_cluster, prepare_start_agents, share_oids, validate_start_cluster,
  convert_primaries, reconfigure_ports,
}
use gpupgrade.Config.Segment.{Codec, MapOrder, get_new_cluster_config_file_path}
use gpupgrade.Config.Reader.{Reader, get_master_data_dir}
use gpupgrade.Status.StateCheck.{Reply, reply, get_status}
use gpupgrade.Status.ShutDown.{get_status as shut_down_status}
use gpupgrade.Status.ConvertMaster.{get_status as convert_master_status}
use gpupgrade.Hub.Agents.{Agents, Connection, status_conversion}

abbrev init_status : Result Node → Reply
init_status (err e) = reply prepare_init_cluster pending
init_status (ok n) = reply prepare_init_cluster complete

-- `GetPrepareNewClusterConfigStatus`
unfoldable pub get_prepare_new_cluster_config_status : FilePath → Sys Reply
get_prepare_new_cluster_config_status base = do
  found ← stat (get_new_cluster_config_file_path base)
  pure (init_status found)

-- The statuses of an error are nil.
abbrev pub statuses_of : Result (List String) → List String
statuses_of (err e) = []
statuses_of (ok statuses) = statuses

-- The status of the primaries, by the lines of the agents.
unfoldable pub primaries_status : List String → StepStatus
primaries_status lines =
    let statuses = join_text lines " " in
    if contains_text statuses "FAILED"
    then failed
    else if contains_text statuses "RUNNING"
    then running
    else if contains_text statuses "COMPLETE"
    then complete
    else pending

abbrev step_status : FilePath → String → UpgradeSteps → Sys Reply
step_status base name step = get_status (record { path = base / name; step = step })

-- `StatusUpgrade`: the ten entries of its reply, where an error leaves a nil entry.
unfoldable pub status_upgrade :
    Execer
    → (agents : Agents) → Codec
    → MapOrder
    → ℤ
    → FilePath
    → List (Connection agents)
    → Reader
    → Sys ((List (Option UpgradeStepStatus) × List (Connection agents)) × Reader)
unfolding get_prepare_new_cluster_config_status primaries_status
status_upgrade exec agents json order port base conns r = do
  checkconfig ← step_status base "check-config" check_config
  prepare_init ← get_prepare_new_cluster_config_status base
  installed ← step_status base "seginstall" seginstall
  shutdown ← shut_down_status exec (record { gpstop_state_path = base / "gpstop" })
  master_data_dir ← get_master_data_dir json r
  master_upgrade ←
      convert_master_status exec
        (record { pg_upgrade_path = base / "pg_upgrade"; old_data_dir = master_data_dir.0 })
  start_agents ← step_status base "start-agents" prepare_start_agents
  shared ← step_status base "share-oids" share_oids
  validated ← step_status base "validate-start-cluster" validate_start_cluster
  conversion ← status_conversion agents json order port conns master_data_dir.1
  reconfigured ← step_status base "reconfigure-ports" reconfigure_ports
  let primaries : UpgradeStepStatus = record {
    step = convert_primaries;
    status = primaries_status (statuses_of conversion.0.0);
  }
  pure (
    (
      checkconfig.0
          ∷ installed.0
          ∷ prepare_init.0
          ∷ shutdown.0
          ∷ master_upgrade.0
          ∷ start_agents.0
          ∷ shared.0
          ∷ validated.0
          ∷ some primaries
          ∷ reconfigured.0
          ∷ [],
      conversion.0.1,
    ),
    conversion.1,
  )
