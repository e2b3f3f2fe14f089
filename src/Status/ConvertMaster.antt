-- ===== src/Status/ConvertMaster.antt =====
-- hub/upgradestatus/pg_upgrade_status_checker.go
pub mod Laws
pub mod Known
pub mod Keeps
use gpupgrade.Base.{
  ℕ, String, Bool, true, false, not, Option, none, some, List, [], ◌∷◌, ltb, ◌==◌, string_eq, ◌<>◌,
  if◌then◌else◌,
}
use gpupgrade.System.{
  FilePath, star, Part, around, Error, not_exist, ok, err, Result, Node, dir, file, Sys, pure,
  ◌>>=◌, stat, glob, read_file, Execer, Outcome, output, Cmd, run_command,
}
use gpupgrade.Idl.{masterupgrade, pending, running, complete, failed}
use gpupgrade.Status.StateCheck.{Reply, reply}
use gpupgrade.Status.DoneFile.{says_complete}

pub record ConvertMaster : Type 0 where
  pub pg_upgrade_path : FilePath
  pub old_data_dir : String

-- `utils.System.IsNotExist(err)`, on the error of `Stat`.
abbrev pub is_not_exist {ℓ} : {A : Type ℓ} → Result A → Bool
is_not_exist (err not_exist) = true
is_not_exist (err e) = false
is_not_exist (ok a) = false

-- `err == nil && len(pids) != 0`
abbrev pub found_pids : Outcome → Bool
found_pids outcome = elim outcome.error [ none ↦ not (outcome.text == "") | some e ↦ false ]

-- `filepath.Glob` returns `nil` where it finds nothing.
abbrev pub any_files : List FilePath → Option Error → Bool
any_files [] e = false
any_files (f ∷ files) none = true
any_files (f ∷ files) (some e) = false

pub in_progress_files_exist : FilePath → Sys Bool
in_progress_files_exist path = do
  found ← glob (record { dir = path; parts = around "" ".inprogress" ∷ [] })
  pure (any_files found.0 found.1)

-- `fi.ModTime()`; the tree keeps no times of directories.
abbrev pub mod_time : Node → ℕ
mod_time dir = 0
mod_time (file text t) = t

-- One turn of the loop over the done files, with what `os.Stat` returns for the file.
abbrev later_file : FilePath → FilePath × ℕ → Result Node → FilePath × ℕ
later_file f latest (err e) = latest
later_file f latest (ok n) = if ltb latest.1 (mod_time n) then (f, mod_time n) else latest

-- The loop that looks for the latest done file.
pub latest_done : List FilePath → FilePath × ℕ → Sys (FilePath × ℕ)
latest_done [] latest = pure latest
latest_done (f ∷ files) latest = do found ← stat f; latest_done files (later_file f latest found)

-- The search of the opened file. A file that cannot be opened or read holds no such line.
abbrev searched : Result String → Bool
searched (err e) = false
searched (ok text) = says_complete text

pub complete_in : List FilePath → Sys Bool
unfolding latest_done
complete_in [] = pure false
complete_in (f ∷ files) = do
  first ← stat f
  elim first [
    | err e ↦ pure false
    | ok n ↦ do
      latest ← latest_done files (f, mod_time n)
      opened ← read_file latest.0
      pure (searched opened)
  ]

abbrev done_files : List FilePath × Option Error → List FilePath
done_files (files, none) = files
done_files (files, some e) = []

pub is_upgrade_complete : FilePath → Sys Bool
unfolding complete_in
is_upgrade_complete path = do
  found ← glob (record { dir = path; parts = around "" ".done" ∷ [] })
  complete_in (done_files found)

abbrev pub pgrep : ConvertMaster → Cmd
pgrep c = record {
  mode = output;
  name = "pgrep";
  args = ("pg_upgrade | grep --old-datadir=" <> c.old_data_dir) ∷ [];
}

module _ (exec : Execer) where
  pub pg_upgrade_running : ConvertMaster → Sys Bool
  pg_upgrade_running c = do pids ← run_command exec (pgrep c); pure (found_pids pids)

  -- What follows once pg_upgrade is known not to run: `&&` asks for the second only after the first.
  pub finished_status : ConvertMaster → Sys Reply
  finished_status c = do
    in_progress ← in_progress_files_exist c.pg_upgrade_path
    is_complete ← if in_progress then pure false else is_upgrade_complete c.pg_upgrade_path
    pure (reply masterupgrade (if is_complete then complete else failed))

  unfoldable pub get_status : ConvertMaster → Sys Reply
  unfolding pg_upgrade_running finished_status in_progress_files_exist is_upgrade_complete
  get_status c = do
    found ← stat c.pg_upgrade_path
    if is_not_exist found then pure (reply masterupgrade pending) else do
      is_running ← pg_upgrade_running c
      if is_running then pure (reply masterupgrade running) else finished_status c
