-- ===== src/Tests/Shutdown.antt =====
-- A shutdown of which only the old cluster was running.
use gpupgrade.Base.{Bool, true, false, ◌≡◌, refl, none, some, ◌∷◌, any, ◌==◌, string_eq}
use gpupgrade.System.{
  run_background, run_command, ◌/◌, FilePath, dir, file, plain, Execer, Cmd, Outcome, World,
  node_at, is_within, below, path_matches, parts_match, part_matches,
}
use gpupgrade.System.FilesLaws.{subtree}
use gpupgrade.Status.ShutDown.Markers.{NoStrays, is_stray}
use gpupgrade.Idl.{StepStatus, stopped_cluster}
use gpupgrade.Status.StateCheck.{reply}
use gpupgrade.Status.ShutDown.{get_status}
use gpupgrade.Checklist.Lifecycle.{started, done}
use gpupgrade.Cluster.Pair.{either_postmaster_running, postmaster_running, Pair, empty_pair}
use gpupgrade.Hub.Steps.{prepare_shutdown_clusters}
use gpupgrade.Hub.Steps.Shutdown.{prepare_shutdown_clusters-status}
use gpupgrade.Status.ShutDown.Both.{get_status-both}
use gpupgrade.Tests.{base, world, base-Exists, tree, with_files, succeeds}

abbrev pair : Pair
pair = record empty_pair {
  old_bin_dir = "/old/bin";
  new_bin_dir = "/new/bin";
  old_master_data_directory = "/old";
  new_master_data_directory = "/new";
}

-- The new master is not found.
abbrev not_found : Cmd → Bool
not_found c = any (λ arg. arg == "pgrep -F /new/postmaster.pid") c.args

outcome_of : Bool → Outcome
outcome_of true = record { text = ""; error = some (plain "exit status 1") }
outcome_of false = record { text = ""; error = none }

abbrev old_only : Execer
old_only log c fs = (outcome_of (not_found c), fs)

prepare_shutdown_clusters-status_example :
    let (work, found) = (prepare_shutdown_clusters old_only base pair world).0 in
    (found.old_postmaster_running ≡ true)
    × (found.new_postmaster_running ≡ false)
    × ((get_status old_only
          (record { gpstop_state_path = base / "gpstop" })
          (run_background work world).1).0
        ≡ reply stopped_cluster StepStatus.failed)
unfolding subtree is_within below outcome_of run_command prepare_shutdown_clusters
    either_postmaster_running postmaster_running
prepare_shutdown_clusters-status_example =
    prepare_shutdown_clusters-status old_only base (λ log c fs. refl) (λ log c fs h. h) pair world
      world refl base-Exists refl

abbrev gpstop : FilePath
gpstop = base / "gpstop"

-- The old cluster has been stopped, and the new one is being stopped.
abbrev half_way : World
half_way = with_files (
    (gpstop / "gpstop.new" / "in.progress", file "" 9)
    ∷ (gpstop / "gpstop.new", dir)
    ∷ (gpstop / "gpstop.old" / "completed", file "" 8)
    ∷ (gpstop / "gpstop.old", dir)
    ∷ (gpstop, dir)
    ∷ tree)

-- `pgrep` finds no `gpstop`.
get_status-both_example :
    (get_status succeeds (record { gpstop_state_path = gpstop }) half_way).0
    ≡ reply stopped_cluster StepStatus.failed
unfolding node_at NoStrays is_stray path_matches parts_match part_matches subtree is_within below
get_status-both_example =
    get_status-both succeeds (record { gpstop_state_path = gpstop }) (λ log c fs. refl) done started
      half_way dir refl refl refl (8, refl) (9, refl)
