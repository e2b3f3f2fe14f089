-- ===== src/Cli/Reporter.antt =====
-- cli/commanders/reporter.go: the lines that are printed, or the error.
pub mod Laws
use gpupgrade.Base.{String, ◌<>◌, Option, none, some, List, [], ◌∷◌, map}
use gpupgrade.System.{Error, plain, Result, ok, err}
use gpupgrade.Idl.{
  UpgradeSteps, StepStatus, UpgradeStepStatus, step_status_name, unknown_step, check_config,
  seginstall, prepare_init_cluster, masterupgrade, stopped_cluster, prepare_start_agents,
  conversion, share_oids, validate_start_cluster, convert_primaries, reconfigure_ports,
}

unfoldable pub upgrade_steps_message : UpgradeSteps → String
upgrade_steps_message unknown_step = "- Unknown step"
upgrade_steps_message check_config = "- Configuration Check"
upgrade_steps_message seginstall = "- Install binaries on segments"
upgrade_steps_message prepare_init_cluster = "- Initialize upgrade target cluster"
upgrade_steps_message prepare_start_agents = "- Agents Started on Cluster"
upgrade_steps_message masterupgrade = "- Run pg_upgrade on master"
upgrade_steps_message stopped_cluster = "- Shutdown clusters"
upgrade_steps_message conversion = "- Run pg_upgrade on segments"
upgrade_steps_message share_oids = "- Copy OID files from master to segments"
upgrade_steps_message validate_start_cluster = "- Validate the upgraded cluster can start up"
upgrade_steps_message convert_primaries = "- Primary segment upgrade"
upgrade_steps_message reconfigure_ports = "- Adjust upgrade cluster ports"

unfoldable pub report_string : UpgradeStepStatus → String
unfolding upgrade_steps_message step_status_name
report_string s = step_status_name s.status <> (" " <> upgrade_steps_message s.step)

-- `OverallUpgradeStatus`, on what the hub's `StatusUpgrade` returned.
unfoldable pub overall_upgrade_status : Result (List UpgradeStepStatus) → Result (List String)
unfolding report_string
overall_upgrade_status (err e) = err (plain "Failed to retrieve status from hub: ")
overall_upgrade_status (ok []) = err (plain "Received no list of upgrade statuses from hub")
overall_upgrade_status (ok (s ∷ statuses)) = ok (map report_string (s ∷ statuses))

-- `OverallConversionStatus`, on what the hub's `StatusConversion` returned.
unfoldable pub overall_conversion_status : Result (List String) → Result (List String)
overall_conversion_status (err e) =
    err (plain "hub returned an error when checking overall conversion status: ")
overall_conversion_status (ok []) = err (plain "Received no list of conversion statuses from hub")
overall_conversion_status (ok (s ∷ statuses)) = ok (s ∷ statuses)
