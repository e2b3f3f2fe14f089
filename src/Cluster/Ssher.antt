-- ===== src/Cluster/Ssher.antt =====
-- hub/cluster_ssher/cluster_ssher.go: commands on every host, with the outcome in a checklist.
pub mod Laws
pub mod Keeps
pub mod Steps
use gpupgrade.Base.{
  String, ◌<>◌, Bool, true, false, Option, none, some, List, [], ◌∷◌, ◌++◌, ◌==◌, string_eq,
  if◌then◌else◌,
}
use gpupgrade.System.{Error, Sys, pure, ◌>>=◌, ◌>>◌, Execer, Cmd, combined_output, run_command}
use gpupgrade.Checklist.{
  ChecklistManager, reset_state_dir, mark_in_progress, mark_failed, mark_complete,
}

-- `filepath.Join(gphome, rest)`
abbrev pub in_gphome : String → String → String
in_gphome gphome rest = if gphome == "" then rest else gphome <> ("/" <> rest)

-- The checklist, `GPHOME`, and what runs commands. The pinger is an argument of `start`.
pub record ClusterSsher : Type 0 where
  pub checklist_writer : ChecklistManager
  pub gphome : String

abbrev pub is_error {ℓ} : {A : Type ℓ} → Option A → Bool
is_error none = false
is_error (some e) = true

abbrev or_failed : Bool → Option Error → Bool
or_failed any_failed none = any_failed
or_failed any_failed (some e) = true

abbrev pub ssh_command : String → List String → Cmd
ssh_command hostname command = record {
  mode = combined_output;
  name = "ssh";
  args = ("-o" ∷ "StrictHostKeyChecking=no" ∷ hostname ∷ []) ++ command;
}

-- `handleStatusLogging`: the checklist's error is only logged.
unfoldable pub handle_status_logging : ClusterSsher → String → Bool → Sys (Unit {0})
handle_status_logging c statedir true = do mark_failed c.checklist_writer statedir; pure tt
handle_status_logging c statedir false = do mark_complete c.checklist_writer statedir; pure tt

abbrev pub start_command : String → List String
start_command gphome =
    ("sh -c '. "
      <> (in_gphome gphome "greenplum_path.sh"
          <> (" ; nohup " <> (in_gphome gphome "bin/gpupgrade_agent" <> " > /dev/null 2>&1 & '"))))
    ∷ []

module _ (exec : Execer) where
  -- The loop over the hosts; a host that fails does not end it.
  unfoldable pub ssh_all : List String → List String → Bool → Sys Bool
  ssh_all [] command any_failed = pure any_failed
  ssh_all (hostname ∷ hostnames) command any_failed = do
    outcome ← run_command exec (ssh_command hostname command)
    ssh_all hostnames command (or_failed any_failed outcome.error)

  unfoldable pub remote_exec : ClusterSsher → List String → String → List String → Sys Bool
  unfolding ssh_all
  remote_exec c hostnames statedir command = do
    cleared ← reset_state_dir c.checklist_writer statedir
    elim cleared [
      | some e ↦ pure true
      | none ↦ do
        marked ← mark_in_progress c.checklist_writer statedir
        elim marked [ some e ↦ pure true | none ↦ ssh_all hostnames command false ]
    ]

  unfoldable pub verify_software : ClusterSsher → List String → Sys (Unit {0})
  unfolding remote_exec handle_status_logging
  verify_software c hostnames = do
    any_failed ←
        remote_exec c hostnames "seginstall" ("ls" ∷ in_gphome c.gphome "bin/gpupgrade_agent" ∷ [])
    handle_status_logging c "seginstall" any_failed

  -- `pinged` is the error of `PingPollAgents`. That some host failed does not count.
  unfoldable pub start : ClusterSsher → List String → Option Error → Sys (Unit {0})
  unfolding remote_exec handle_status_logging
  start c hostnames pinged = do
    remote_exec c hostnames "start-agents" (start_command c.gphome)
    handle_status_logging c "start-agents" (is_error pinged)
