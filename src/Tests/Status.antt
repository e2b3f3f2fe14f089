-- ===== src/Tests/Status.antt =====
-- The statuses of conversions and of the shutdown.
use gpupgrade.Base.{◌≡◌, refl, ◌≢◌, ◌↔◌, true, false, any, contains_text, none, [], ◌∷◌, length}
use gpupgrade.System.{
  ◌/◌, dir, file, node_at, Fs, glob_files, stat, glob, read_file, run_command, stat_file,
  read_content,
}
use gpupgrade.Idl.{masterupgrade, stopped_cluster, complete, running, pending, failed}
use gpupgrade.Status.StateCheck.{reply}
use gpupgrade.Status.ConvertMaster.{ConvertMaster, get_status}
use gpupgrade.Status.ConvertMaster.Laws.{
  LatestSays, in_progress_pattern, done_pattern, get_status-pending-running, get_status-complete,
}
use gpupgrade.Status.DoneFile.{says_complete, split_lines, says_complete-any}
use gpupgrade.Status.ShutDown.{get_status as shut_down_status}
use gpupgrade.Status.ShutDown.Laws.{markers, stopped-complete}
use gpupgrade.Tests.{base, tree, world, with_files, succeeds}

abbrev checker : ConvertMaster
checker = record { pg_upgrade_path = base / "pg_upgrade"; old_data_dir = "/data/master" }

abbrev converted : Fs
converted =
    (base / "pg_upgrade" / "1.done", file "Upgrade complete\n" 5)
    ∷ (base / "pg_upgrade" / "0.done", file "checking\n" 4)
    ∷ (base / "pg_upgrade", dir)
    ∷ tree

get_status-complete_example :
    (node_at (base / "pg_upgrade") converted ≢ none)
    × (false ≡ false)
    × (glob_files (in_progress_pattern (base / "pg_upgrade")) converted ≡ [])
    × LatestSays (glob_files (done_pattern (base / "pg_upgrade")) converted) converted
unfolding get_status stat glob read_file stat_file run_command glob_files read_content says_complete
get_status-complete_example =
    get_status-complete succeeds (λ log c fs. refl) checker (with_files converted) refl refl

get_status-pending-running_example :
    (((get_status succeeds checker world).0 ≡ reply masterupgrade pending)
      ↔ (node_at (base / "pg_upgrade") tree ≡ none))
    × (((get_status succeeds checker world).0 ≡ reply masterupgrade running)
        ↔ ((node_at (base / "pg_upgrade") tree ≢ none) × (false ≡ true)))
get_status-pending-running_example =
    get_status-pending-running succeeds (λ log c fs. refl) checker world refl

says_complete-any_example :
    says_complete "checking\nUpgrade complete"
    ≡ any (λ l. contains_text l "Upgrade complete") (split_lines "checking\nUpgrade complete").0
says_complete-any_example = says_complete-any "checking\nUpgrade complete"

-- The last line has no line end.
last_line : says_complete "checking\nUpgrade complete" ≡ false
unfolding says_complete
last_line = refl

last_line_ended : says_complete "checking\nUpgrade complete\n" ≡ true
unfolding says_complete
last_line_ended = refl

abbrev one_stopped : Fs
one_stopped =
    (base / "gpstop" / "gpstop.old" / "completed", file "" 3)
    ∷ (base / "gpstop" / "gpstop.old", dir)
    ∷ (base / "gpstop", dir)
    ∷ tree

stopped-complete_example :
    ((shut_down_status succeeds
        (record { gpstop_state_path = base / "gpstop" })
        (with_files one_stopped)).0
      ≡ reply stopped_cluster complete)
    ↔ ((node_at (base / "gpstop") one_stopped ≢ none)
        × (glob_files (markers (base / "gpstop") "in.progress") one_stopped ≡ [])
        × (length (glob_files (markers (base / "gpstop") "completed") one_stopped) ≡ 2))
stopped-complete_example =
    stopped-complete succeeds (record { gpstop_state_path = base / "gpstop" }) (λ log c fs. refl)
      (with_files one_stopped) refl

-- One cluster was stopped, and there was no other.
one_stopped_status :
    (shut_down_status succeeds
      (record { gpstop_state_path = base / "gpstop" })
      (with_files one_stopped)).0
    ≡ reply stopped_cluster failed
unfolding shut_down_status stat stat_file run_command glob glob_files
one_stopped_status = refl
