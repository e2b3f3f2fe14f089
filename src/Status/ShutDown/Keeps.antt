-- ===== src/Status/ShutDown/Keeps.antt =====
-- hub/upgradestatus/shutdown_clusters.go: the files around `GetStatus` of the shutdown.
use gpupgrade.Base.{false, List, [], ◌∷◌, ◌≡◌, if◌then◌else◌}
use gpupgrade.System.{
  FilePath, star, name, Sys, pure, ◌>>=◌, stat, glob, run_command, Execer, Cmd, Fs, output,
}
use gpupgrade.System.FilesLaws.{subtree}
use gpupgrade.System.Keeps.{
  Keeps, Keeps-pure, Keeps-bind, Keeps-if, Keeps-stat, Keeps-glob, Keeps-run_command,
}
use gpupgrade.Idl.{stopped_cluster, pending, running, complete, failed}
use gpupgrade.Status.StateCheck.{Reply, reply}
use gpupgrade.Status.ConvertMaster.{is_not_exist, any_files, found_pids}
use gpupgrade.Status.ShutDown.{
  ShutDownClusters, in_progress_files_exist, two_files, is_stop_complete, is_gpstop_running,
  in_shutdown, finished_status, get_status,
}

module _ (d : FilePath) (exec : Execer)
    (spares : (log : List Cmd) (c : Cmd) (fs : Fs)
      → subtree d (exec log c fs).1 ≡ subtree d fs) where
  in_progress-Keeps : (path : FilePath) → Keeps d (in_progress_files_exist path)
  unfolding in_progress_files_exist
  in_progress-Keeps path =
      Keeps-bind d (glob (record { dir = path; parts = star ∷ name "in.progress" ∷ [] })) _
        (Keeps-glob d (record { dir = path; parts = star ∷ name "in.progress" ∷ [] }))
        λ found. Keeps-pure d (any_files found.0 found.1)

  is_stop_complete-Keeps : (path : FilePath) → Keeps d (is_stop_complete path)
  unfolding is_stop_complete
  is_stop_complete-Keeps path =
      Keeps-bind d (glob (record { dir = path; parts = star ∷ name "completed" ∷ [] })) _
        (Keeps-glob d (record { dir = path; parts = star ∷ name "completed" ∷ [] }))
        λ found. Keeps-pure d (two_files found.0 found.1)

  abbrev pgrep : Cmd
  pgrep = record { mode = output; name = "pgrep"; args = "-f" ∷ "gpstop" ∷ [] }

  is_gpstop_running-Keeps : Keeps d (is_gpstop_running exec)
  unfolding is_gpstop_running
  is_gpstop_running-Keeps =
      Keeps-bind d (run_command exec pgrep) _
        (Keeps-run_command d exec pgrep (λ log fs. spares log pgrep fs))
        λ pids. Keeps-pure d (found_pids pids)

  in_shutdown-Keeps : (path : FilePath) → Keeps d (in_shutdown exec path)
  unfolding in_shutdown
  in_shutdown-Keeps path =
      Keeps-bind d (is_gpstop_running exec) _ is_gpstop_running-Keeps λ is_running.
        Keeps-if d is_running (in_progress_files_exist path) (pure false) (in_progress-Keeps path)
          (Keeps-pure d false)

  finished-Keeps : (path : FilePath) → Keeps d (finished_status exec path)
  unfolding finished_status
  finished-Keeps path =
      Keeps-bind d (in_progress_files_exist path) _ (in_progress-Keeps path) λ in_progress.
        Keeps-bind d (if in_progress then pure false else is_stop_complete path) _
          (Keeps-if d in_progress (pure false) (is_stop_complete path) (Keeps-pure d false)
            (is_stop_complete-Keeps path))
          λ is_complete.
            Keeps-pure d (reply stopped_cluster (if is_complete then complete else failed))

  abbrev present : FilePath → Sys Reply
  present path = do
    is_running ← in_shutdown exec path
    if is_running then pure (reply stopped_cluster running) else finished_status exec path

  pub shut_down-Keeps : (s : ShutDownClusters) → Keeps d (get_status exec s)
  unfolding get_status
  shut_down-Keeps s =
      let path = s.gpstop_state_path in
      Keeps-bind d (stat path) _ (Keeps-stat d path) λ found.
        Keeps-if d (is_not_exist found) (pure (reply stopped_cluster pending)) (present path)
          (Keeps-pure d (reply stopped_cluster pending))
          (Keeps-bind d (in_shutdown exec path) _ (in_shutdown-Keeps path) λ is_running.
            Keeps-if d is_running (pure (reply stopped_cluster running)) (finished_status exec path)
              (Keeps-pure d (reply stopped_cluster running)) (finished-Keeps path))
