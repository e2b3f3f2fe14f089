-- ===== src/Agent/Disk.antt =====
-- agent/services/disk_space.go, upgrade_status.go, ping_agents.go, and `createIfNotExists` of
-- agent_server.go.
pub mod Laws
use gpupgrade.Base.{
  String, Bool, true, false, Option, none, some, List, [], ◌∷◌, map, if◌then◌else◌, ◌==◌, string_eq,
}
use gpupgrade.System.{
  FilePath, Node, Error, not_exist, Result, ok, err, Sys, pure, ◌>>=◌, ◌>>◌, Execer, Cmd, output,
  run_command, stat, mkdir_one,
}
use gpupgrade.Config.Segment.{MapOrder}

-- gosigar: the directories of the file systems, and `UsePercent` of one, a float64.
pub record Sigar : Type 1 where
  pub Usage : Type 0
  pub file_systems : Result (List String)
  pub usage_of : String → Result Usage

module _ (sigar : Sigar) where
  open sigar use {Usage, file_systems, usage_of}

  -- A `map[string]float64`: each key once.
  abbrev pub Usages : Type 0
  Usages = List (String × Usage)

  -- `diskUsagePerFS[name] = usage`
  unfoldable pub set_usage : String → Usage → Usages → Usages
  set_usage name usage [] = (name, usage) ∷ []
  set_usage name usage ((n, u) ∷ m) =
      let later = set_usage name usage m in if n == name then (name, usage) ∷ m else (n, u) ∷ later

  abbrev pub names : Usages → List String
  names m = map (λ e. e.0) m

  unfoldable pub get_usage : String → Usages → Option Usage
  get_usage name [] = none
  get_usage name ((n, u) ∷ m) = let later = get_usage name m in if n == name then some u else later

  -- The loop over `fslist.List`.
  unfoldable pub usage_loop : List String → Usages → Result Usages
  unfolding set_usage
  usage_loop [] m = ok m
  usage_loop (name ∷ rest) m = elim (usage_of name) [
    | err e ↦ err e
    | ok usage ↦ usage_loop rest (set_usage name usage m)
  ]

  abbrev usages_of : Result (List String) → Result Usages
  usages_of (err e) = err e
  usages_of (ok dirs) = usage_loop dirs []

  -- `diskUsage`
  unfoldable pub disk_usage : Result Usages
  unfolding usage_loop
  disk_usage = usages_of file_systems

  -- The loop over the map, by its keys in the order in which they come.
  unfoldable pub list_usages : List String → Usages → List (String × Usage)
  unfolding get_usage
  list_usages [] m = []
  list_usages (name ∷ rest) m = elim (get_usage name m) [
    | none ↦ list_usages rest m
    | some usage ↦ (name, usage) ∷ list_usages rest m
  ]

  abbrev listed : MapOrder → Result Usages → Result (List (String × Usage))
  listed order (err e) = err e
  listed order (ok m) = ok (list_usages (order.keys (names m)) m)

  -- `CheckDiskSpaceOnAgents`, where `GetDiskUsage` is `diskUsage`.
  unfoldable pub check_disk_space_on_agents : MapOrder → Result (List (String × Usage))
  unfolding disk_usage list_usages
  check_disk_space_on_agents order = listed order disk_usage

abbrev pub process_command : Cmd
process_command = record {
  mode = output;
  name = "bash";
  args = "-c" ∷ "ps auxx | grep pg_upgrade" ∷ [];
}

abbrev process_list : String → Option Error → Result String
process_list text none = ok text
process_list text (some e) = err e

-- `CheckUpgradeStatus`: the list of the processes, or the error.
unfoldable pub check_upgrade_status : Execer → Sys (Result String)
check_upgrade_status exec = do
  outcome ← run_command exec process_command
  pure (process_list outcome.text outcome.error)

-- `os.IsNotExist(err)`
abbrev is_not_exist : Error → Bool
is_not_exist not_exist = true
is_not_exist other = false

-- `createIfNotExists`: the error of `Mkdir` is not read.
abbrev make_missing : FilePath → Result Node → Sys (Unit {0})
make_missing p (ok node) = pure tt
make_missing p (err e) = if is_not_exist e then (do failure ← mkdir_one p; pure tt) else pure tt

unfoldable pub create_if_not_exists : FilePath → Sys (Unit {0})
create_if_not_exists p = do found ← stat p; make_missing p found
