-- ===== src/Checklist.antt =====
-- hub/upgradestatus/checklist_manager.go: the state of each step of an upgrade, kept as the files of
-- one directory. `Marks` is the abstract view of such a directory; `Lifecycle` relates the two.
pub mod Marks
pub mod Lifecycle
pub mod Calm
pub mod Keeps
pub mod Stable
pub mod Outside
use gpupgrade.Base.{String, Option, none, some}
use gpupgrade.System.{
  FilePath, ◌/◌, Error, Sys, pure, ◌>>=◌, open_create, remove, remove_all, mkdir_all,
}

pub record ChecklistManager : Type 0 where
  pub path_to_state_dir : FilePath
  pub in_progress : String
  pub failed : String
  pub completed : String

abbrev pub new_checklist_manager : FilePath → ChecklistManager
new_checklist_manager path = record {
  path_to_state_dir = path;
  in_progress = "in.progress";
  failed = "failed";
  completed = "completed";
}

-- `if err != nil { return err }`, then the rest.
abbrev pub unless_error : Option Error → Sys (Option Error) → Sys (Option Error)
unless_error (some e) rest = pure (some e)
unless_error none rest = rest

unfoldable pub mark_failed : ChecklistManager → String → Sys (Option Error)
mark_failed c step = do
  error ← remove (c.path_to_state_dir / step / c.in_progress)
  unless_error error (open_create (c.path_to_state_dir / step / c.failed))

unfoldable pub mark_complete : ChecklistManager → String → Sys (Option Error)
mark_complete c step = do
  error ← remove (c.path_to_state_dir / step / c.in_progress)
  unless_error error (open_create (c.path_to_state_dir / step / c.completed))

unfoldable pub mark_in_progress : ChecklistManager → String → Sys (Option Error)
mark_in_progress c step = open_create (c.path_to_state_dir / step / c.in_progress)

unfoldable pub reset_state_dir : ChecklistManager → String → Sys (Option Error)
reset_state_dir c step = do
  let step_specific_state_dir = c.path_to_state_dir / step
  error ← remove_all step_specific_state_dir
  unless_error error (mkdir_all step_specific_state_dir)
