-- ===== src/Status/ConvertMaster/Keeps.antt =====
-- hub/upgradestatus/pg_upgrade_status_checker.go: the files around `GetStatus` of a conversion.
use gpupgrade.Base.{Bool, false, ℕ, List, [], ◌∷◌, ◌≡◌, if◌then◌else◌}
use gpupgrade.System.{
  FilePath, around, Result, ok, err, Node, Sys, pure, ◌>>=◌, stat, glob, read_file, run_command,
  Execer, Cmd, Fs,
}
use gpupgrade.System.FilesLaws.{subtree}
use gpupgrade.System.Keeps.{
  Keeps, Keeps-pure, Keeps-bind, Keeps-if, Keeps-stat, Keeps-glob, Keeps-read_file,
  Keeps-run_command,
}
use gpupgrade.Idl.{masterupgrade, pending, running, complete, failed}
use gpupgrade.Status.StateCheck.{Reply, reply}
use gpupgrade.Status.ConvertMaster.{
  ConvertMaster, is_not_exist, any_files, mod_time, later_file, latest_done, searched, complete_in,
  done_files, in_progress_files_exist, is_upgrade_complete, pgrep, pg_upgrade_running,
  finished_status, get_status, found_pids,
}

module _ (d : FilePath) where
  latest_done-Keeps :
      (files : List FilePath) (latest : FilePath × ℕ) → Keeps d (latest_done files latest)
  unfolding latest_done
  latest_done-Keeps [] latest = Keeps-pure d latest
  latest_done-Keeps (f ∷ files) latest =
      Keeps-bind d (stat f) (λ found. latest_done files (later_file f latest found))
        (Keeps-stat d f) λ found. latest_done-Keeps files (later_file f latest found)

  abbrev from_first : FilePath → List FilePath → Result Node → Sys Bool
  from_first f files (err e) = pure false
  from_first f files (ok n) = do
    latest ← latest_done files (f, mod_time n)
    opened ← read_file latest.0
    pure (searched opened)

  from_first-Keeps :
      (f : FilePath) (files : List FilePath) (first : Result Node)
      → Keeps d (from_first f files first)
  from_first-Keeps f files (err e) = Keeps-pure d false
  from_first-Keeps f files (ok n) =
      Keeps-bind d (latest_done files (f, mod_time n)) _ (latest_done-Keeps files (f, mod_time n))
        λ latest.
          Keeps-bind d (read_file latest.0) _ (Keeps-read_file d latest.0)
            λ opened. Keeps-pure d (searched opened)

  complete_in-Keeps : (files : List FilePath) → Keeps d (complete_in files)
  unfolding complete_in
  complete_in-Keeps [] = Keeps-pure d false
  complete_in-Keeps (f ∷ files) =
      Keeps-bind d (stat f) (from_first f files) (Keeps-stat d f) (from_first-Keeps f files)

  is_upgrade_complete-Keeps : (path : FilePath) → Keeps d (is_upgrade_complete path)
  unfolding is_upgrade_complete
  is_upgrade_complete-Keeps path =
      Keeps-bind d (glob (record { dir = path; parts = around "" ".done" ∷ [] })) _
        (Keeps-glob d (record { dir = path; parts = around "" ".done" ∷ [] }))
        λ found. complete_in-Keeps (done_files found)

  in_progress-Keeps : (path : FilePath) → Keeps d (in_progress_files_exist path)
  unfolding in_progress_files_exist
  in_progress-Keeps path =
      Keeps-bind d (glob (record { dir = path; parts = around "" ".inprogress" ∷ [] })) _
        (Keeps-glob d (record { dir = path; parts = around "" ".inprogress" ∷ [] }))
        λ found. Keeps-pure d (any_files found.0 found.1)

  module _ (exec : Execer)
      (spares : (log : List Cmd) (c : Cmd) (fs : Fs) → subtree d (exec log c fs).1 ≡ subtree d fs)
      (c : ConvertMaster) where
    finished-Keeps : Keeps d (finished_status exec c)
    unfolding finished_status
    finished-Keeps =
        Keeps-bind d (in_progress_files_exist c.pg_upgrade_path) _
          (in_progress-Keeps c.pg_upgrade_path)
          λ in_progress.
            Keeps-bind d (if in_progress then pure false else is_upgrade_complete c.pg_upgrade_path)
              _
              (Keeps-if d in_progress (pure false) (is_upgrade_complete c.pg_upgrade_path)
                (Keeps-pure d false) (is_upgrade_complete-Keeps c.pg_upgrade_path))
              λ is_complete.
                Keeps-pure d (reply masterupgrade (if is_complete then complete else failed))

    running-Keeps : Keeps d (pg_upgrade_running exec c)
    unfolding pg_upgrade_running
    running-Keeps =
        Keeps-bind d (run_command exec (pgrep c)) _
          (Keeps-run_command d exec (pgrep c) (λ log fs. spares log (pgrep c) fs))
          λ pids. Keeps-pure d (found_pids pids)

    abbrev present : Sys Reply
    present = do
      is_running ← pg_upgrade_running exec c
      if is_running then pure (reply masterupgrade running) else finished_status exec c

    pub convert_master-Keeps : Keeps d (get_status exec c)
    unfolding get_status
    convert_master-Keeps =
        Keeps-bind d (stat c.pg_upgrade_path) _ (Keeps-stat d c.pg_upgrade_path) λ found.
          Keeps-if d (is_not_exist found) (pure (reply masterupgrade pending)) present
            (Keeps-pure d (reply masterupgrade pending))
            (Keeps-bind d (pg_upgrade_running exec c) _ running-Keeps λ is_running.
              Keeps-if d is_running (pure (reply masterupgrade running)) (finished_status exec c)
                (Keeps-pure d (reply masterupgrade running)) finished-Keeps)
