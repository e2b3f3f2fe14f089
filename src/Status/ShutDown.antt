-- ===== src/Status/ShutDown.antt =====
-- hub/upgradestatus/shutdown_clusters.go
pub mod Laws
pub mod Keeps
pub mod Markers
pub mod Both
use gpupgrade.Base.{Bool, true, false, Option, none, some, List, [], ◌∷◌, String, if◌then◌else◌}
use gpupgrade.System.{
  FilePath, star, name, Error, Sys, pure, ◌>>=◌, stat, glob, Execer, output, run_command,
}
use gpupgrade.Idl.{stopped_cluster, pending, running, complete, failed}
use gpupgrade.Status.StateCheck.{Reply, reply}
use gpupgrade.Status.ConvertMaster.{is_not_exist, found_pids, any_files}

pub record ShutDownClusters : Type 0 where
  pub gpstop_state_path : FilePath

pub in_progress_files_exist : FilePath → Sys Bool
in_progress_files_exist path = do
  found ← glob (record { dir = path; parts = star ∷ name "in.progress" ∷ [] })
  pure (any_files found.0 found.1)

-- Two completed files, one for gpstop.old and one for gpstop.new.
abbrev pub two_files : List FilePath → Option Error → Bool
two_files (f ∷ g ∷ []) none = true
two_files files e = false

pub is_stop_complete : FilePath → Sys Bool
is_stop_complete path = do
  found ← glob (record { dir = path; parts = star ∷ name "completed" ∷ [] })
  pure (two_files found.0 found.1)

module _ (exec : Execer) where
  pub is_gpstop_running : Sys Bool
  is_gpstop_running = do
    pids ← run_command exec (record { mode = output; name = "pgrep"; args = "-f" ∷ "gpstop" ∷ [] })
    pure (found_pids pids)

  -- `s.isGpstopRunning() && s.inProgressFilesExist(path)`
  pub in_shutdown : FilePath → Sys Bool
  unfolding is_gpstop_running in_progress_files_exist
  in_shutdown path = do
    is_running ← is_gpstop_running
    if is_running then in_progress_files_exist path else pure false

  pub finished_status : FilePath → Sys Reply
  unfolding in_progress_files_exist is_stop_complete
  finished_status path = do
    in_progress ← in_progress_files_exist path
    is_complete ← if in_progress then pure false else is_stop_complete path
    pure (reply stopped_cluster (if is_complete then complete else failed))

  unfoldable pub get_status : ShutDownClusters → Sys Reply
  unfolding in_shutdown finished_status
  get_status s = do
    found ← stat s.gpstop_state_path
    if is_not_exist found then pure (reply stopped_cluster pending) else do
      is_running ← in_shutdown s.gpstop_state_path
      if is_running
          then pure (reply stopped_cluster running)
          else finished_status s.gpstop_state_path
