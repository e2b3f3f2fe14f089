-- ===== src/Idl.antt =====
-- idl/cli_to_hub.proto and hub_to_agent.proto: the enumerations and messages that the model names.
use gpupgrade.Base.{String, List, ℤ}

pub data UpgradeSteps : Type 0 where
  unknown_step check_config seginstall prepare_init_cluster masterupgrade stopped_cluster :
      UpgradeSteps
  prepare_start_agents conversion share_oids validate_start_cluster : UpgradeSteps
  convert_primaries reconfigure_ports : UpgradeSteps

pub data StepStatus : Type 0 where
  unknown_status pending running complete failed : StepStatus

-- `StepStatus_name`, which `String()` prints.
unfoldable pub step_status_name : StepStatus → String
step_status_name unknown_status = "UNKNOWN_STATUS"
step_status_name pending = "PENDING"
step_status_name running = "RUNNING"
step_status_name complete = "COMPLETE"
step_status_name failed = "FAILED"

pub record UpgradeStepStatus : Type 0 where
  pub step : UpgradeSteps
  pub status : StepStatus

pub record DataDirPair : Type 0 where
  pub old_data_dir : String
  pub new_data_dir : String
  pub old_port : ℤ
  pub new_port : ℤ
  pub content : ℤ

pub record SegmentInfo : Type 0 where
  pub content : ℤ
  pub dbid : ℤ
  pub data_dir : String

pub record ConvertPrimariesRequest : Type 0 where
  pub old_bin_dir : String
  pub new_bin_dir : String
  pub data_dir_pairs : List DataDirPair
