-- ===== src/Agent/Conversion.antt =====
-- agent/services/conversion_status.go
pub mod Laws
use gpupgrade.Base.{
  String, ◌<>◌, ℤ, pos, minus_one, int_eq, decimal, Bool, ◌&&◌, Option, none, some, List, [], ◌∷◌,
  ◌++◌, if◌then◌else◌, ◌==◌,
}
use gpupgrade.System.{FilePath, ◌/◌, Error, plain, Result, ok, err, Sys, pure, ◌>>=◌, Execer}
use gpupgrade.Idl.{StepStatus, unknown_status, step_status_name, UpgradeStepStatus, SegmentInfo}
use gpupgrade.Status.StateCheck.{Reply}
use gpupgrade.Status.ConvertMaster.{ConvertMaster, get_status}

abbrev pub is_master : SegmentInfo → Bool
is_master s = (s.dbid == pos 1) && (s.content == minus_one)

-- `fmt.Sprintf(format, …)`, the status being 0 where there is none.
abbrev pub status_line : String → SegmentInfo → StepStatus → String
status_line hostname s status =
    step_status_name status
    <> (" - DBID "
        <> (decimal s.dbid
            <> (" - CONTENT ID "
                <> (decimal s.content
                    <> (" - "
                        <> ((if is_master s then "MASTER" else "PRIMARY")
                            <> (" - " <> hostname)))))))

abbrev pub checker_of : FilePath → SegmentInfo → ConvertMaster
checker_of state_dir s = record {
  pg_upgrade_path = state_dir / "pg_upgrade" / ("seg-" <> decimal s.content);
  old_data_dir = s.data_dir;
}

-- The status or the error that `GetStatus` returned; a nil status reads as the zero status.
abbrev pub status_of : Reply → Result StepStatus
status_of (found, some e) = err e
status_of (none, none) = ok unknown_status
status_of (some found, none) = ok found.status

-- What one turn of the loop does to `master` and `replies`.
abbrev taken : String → SegmentInfo → StepStatus → String × List String → String × List String
taken hostname s status (master, replies) =
    if is_master s
    then (status_line hostname s status, replies)
    else (master, replies ++ (status_line hostname s status ∷ []))

module _ (exec : Execer) (state_dir : FilePath) (hostname : String) where
  pub check_segments : List SegmentInfo → String × List String → Sys (Result (String × List String))
  check_segments [] lines = pure (ok lines)
  check_segments (s ∷ segments) lines = do
    found ← get_status exec (checker_of state_dir s)
    elim (status_of found) [
      | err e ↦ pure (err e)
      | ok status ↦ check_segments segments (taken hostname s status lines)
    ]

  abbrev reply_of : Result (String × List String) → Result (List String)
  reply_of (err e) = err e
  reply_of (ok (master, replies)) = ok (master ∷ replies)

  -- `CheckConversionStatus`
  unfoldable pub check_conversion_status : List SegmentInfo → Sys (Result (List String))
  unfolding check_segments
  check_conversion_status [] = pure (err (plain "no segment information was passed to the agent"))
  check_conversion_status (s ∷ segments) = do
    lines ← check_segments (s ∷ segments) ("", [])
    pure (reply_of lines)
