-- ===== src/Cli/Session.antt =====
-- idl/cli_to_hub.proto, the requests of the command line; and what a run of gpupgrade sees and does:
-- the machine it runs on, the connection to the hub, and what has been asked and written so far.
use gpupgrade.Base.{String, ℤ, Bool, Option, List, [], ◌∷◌, ◌++◌, if◌then◌else◌, ◌==◌, string_eq}
use gpupgrade.System.{FilePath, ◌/◌, Error, Result, World, Execer, Sys}
use gpupgrade.Idl.{UpgradeStepStatus}
use gpupgrade.Config.Segment.{Codec}
use gpupgrade.Hub.Checks.{CountPerDb}

-- The requests of the service `CliToHub`, with their fields in order.
pub data Request : Type 0 where
  ping_request status_upgrade_request status_conversion_request : Request
  check_config_request : (db_port : ℤ) (old_bin_dir : String) → Request
  check_seginstall_request : Request
  check_object_count_request : (db_port : ℤ) → Request
  check_version_request : (host : String) (db_port : ℤ) → Request
  check_disk_space_request : Request
  prepare_init_cluster_request : (db_port : ℤ) (new_bin_dir : String) → Request
  prepare_shutdown_clusters_request : (old_bin_dir new_bin_dir : String) → Request
  prepare_start_agents_request : Request
  upgrade_convert_master_request :
      (old_data_dir old_bin_dir new_data_dir new_bin_dir : String) → Request
  upgrade_convert_primaries_request : (old_bin_dir new_bin_dir : String) → Request
  upgrade_share_oids_request : Request
  upgrade_validate_start_cluster_request : (new_data_dir new_bin_dir : String) → Request
  upgrade_reconfigure_ports_request : Request

-- The replies; one that has no field is a unit.
abbrev pub ReplyTo : Request → Type 0
ReplyTo status_upgrade_request = List UpgradeStepStatus
ReplyTo status_conversion_request = List String
ReplyTo (check_object_count_request port) = List CountPerDb
ReplyTo (check_version_request host port) = Bool
ReplyTo check_disk_space_request = List String
ReplyTo other = Unit

-- What a run writes: `gplog.Info(text)`, `gplog.Error(text)`, `fmt.Println(text)`, then
-- `gplog.Error(err.Error())` and `fmt.Println(err)`.
pub data Line : Type 0 where
  info error printed : String → Line
  error_of printed_of : Error → Line

-- gRPC to the hub, the programs of the machine, `strconv.Atoi` of a count, and JSON. The hub may answer
-- by what it was asked before.
pub record Machine : Type 0 where
  pub dial : String → Option Error
  pub call : List Request → (q : Request) → Result (ReplyTo q)
  pub exec : Execer
  pub parsed : String → Result ℤ
  pub json : Codec
  -- `os.Getenv`, the path that a text stands for, and `UpgradeVersion`, set when the program is built
  pub getenv : String → String
  pub path_of : String → FilePath
  pub upgrade_version : String

-- `utils.GetStateDir`
unfoldable pub get_state_dir : Machine → FilePath
get_state_dir m =
    let home = m.getenv "GPUPGRADE_HOME" in
    if home == "" then m.path_of (m.getenv "HOME") / ".gpupgrade" else m.path_of home

pub record Console : Type 0 where
  pub world : World
  -- the requests and the lines so far, in order
  pub asked : List Request
  pub lines : List Line

abbrev pub Cli : Type 0 → Type 0
Cli A = Console → A × Console

abbrev pub pure : {A : Type 0} → A → Cli A
pure a c = (a, c)

infixl 5 ◌>>=◌ ◌>>◌
abbrev pub ◌>>=◌ : {A B : Type 0} → Cli A → (A → Cli B) → Cli B
◌>>=◌ m f c = let (a, c') = m c in f a c'

abbrev pub ◌>>◌ : {A B : Type 0} → Cli A → Cli B → Cli B
◌>>◌ m n c = let (a, c') = m c in n c'

abbrev pub write : Line → Cli (Unit {0})
write line c = (tt, record c { lines = c.lines ++ (line ∷ []) })

abbrev pub on_world : {A : Type 0} → Sys A → Cli A
on_world m c = let (a, w) = m c.world in (a, record c { world = w })

-- A method of `pb.CliToHubClient`.
abbrev pub ask : Machine → (q : Request) → Cli (Result (ReplyTo q))
ask m q c = (m.call c.asked q, record c { asked = c.asked ++ (q ∷ []) })
