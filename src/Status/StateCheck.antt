-- ===== src/Status/StateCheck.antt =====
-- hub/upgradestatus/state_checker.go
pub mod Laws
pub mod Twice
use gpupgrade.Base.{Option, none, some, List, [], ◌∷◌, ◌==◌, string_eq, list_eq, if◌then◌else◌}
use gpupgrade.System.{FilePath, ◌/◌, star, Error, plain, ok, err, Sys, pure, ◌>>=◌, stat, glob}
use gpupgrade.Idl.{UpgradeSteps, StepStatus, pending, running, complete, failed, UpgradeStepStatus}

-- A status or an error, as Go returns the two.
abbrev pub Reply : Type 0
Reply = Option UpgradeStepStatus × Option Error

abbrev pub reply : UpgradeSteps → StepStatus → Reply
reply step status = (some (record { step = step; status = status }), none)

pub record StateCheck : Type 0 where
  pub path : FilePath
  pub step : UpgradeSteps

-- The status that the files of the directory stand for.
pub by_files : StateCheck → List FilePath → Reply
by_files c [] = reply c.step pending
by_files c (f ∷ []) =
    if f == c.path / "failed"
    then reply c.step failed
    else if f == c.path / "completed"
    then reply c.step complete
    else if f == c.path / "in.progress"
    then reply c.step running
    else reply c.step pending
by_files c (f ∷ g ∷ files) = (none, some (plain "got more files than expected"))

unfoldable pub get_status : StateCheck → Sys Reply
unfolding by_files
get_status c = do
  found ← stat c.path
  elim found [
    | err e ↦ pure (reply c.step pending)
    | ok n ↦ do files ← glob (record { dir = c.path; parts = star ∷ [] }); pure (by_files c files.0)
  ]
