-- ===== src/Agent/Conversion/Laws.antt =====
-- agent/services/conversion_status.go: the lines of a reply.
use mathlib.Core.List.{append_assoc, append-nil}
use gpupgrade.Base.{
  String, Bool, not, ◌≡◌, sym, ap, none, some, List, [], ◌∷◌, ◌++◌, arith, if◌then◌else◌,
  Bool-cases, inl, inr, int_eq,
}
use gpupgrade.System.{FilePath, ok, World, Execer}
use gpupgrade.Idl.{StepStatus, unknown_status, SegmentInfo}
use gpupgrade.Status.StateCheck.{Reply}
use gpupgrade.Status.ConvertMaster.{get_status}
use gpupgrade.Status.ConvertMaster.Known.{get_status-known}
use gpupgrade.Agent.Conversion.{
  is_master, status_line, checker_of, check_segments, reply_of, check_conversion_status,
}

abbrev status_in : Reply → StepStatus
status_in (some found, e) = found.status
status_in (none, e) = unknown_status

abbrev last_or : String → List String → String
last_or default [] = default
last_or default (x ∷ l) = last_or x l

module _ (exec : Execer) (state_dir : FilePath) (hostname : String) where
  -- The line of each segment: what `GetStatus` returns for it, in order.
  unfoldable pub lines_of : (SegmentInfo → Bool) → List SegmentInfo → World → List String
  lines_of wanted [] w = []
  lines_of wanted (s ∷ segments) w =
      let r = get_status exec (checker_of state_dir s) w in
      let rest = lines_of wanted segments r.1 in
      if wanted s then status_line hostname s (status_in r.0) ∷ rest else rest

  check_segments-lines :
      (segments : List SegmentInfo) (master : String) (replies : List String) (w : World)
      → (check_segments exec state_dir hostname segments (master, replies) w).0
        ≡ ok (
          last_or master (lines_of is_master segments w),
          replies ++ lines_of (λ s. not (is_master s)) segments w,
        )
  unfolding check_segments lines_of
  check_segments-lines [] master replies w = ap (λ l. ok (master, l)) (sym (append-nil replies))
  check_segments-lines (s ∷ segments) master replies w =
      let r = get_status exec (checker_of state_dir s) w in
      let (status, e) = get_status-known exec (checker_of state_dir s) w in
      let line = status_line hostname s status in
      elim (Bool-cases (is_master s)) [
        | inl its ↦ ground (arith, e, its, check_segments-lines segments line replies r.1)
        | inr other ↦ ground (
          arith,
          e,
          other,
          check_segments-lines segments master (replies ++ (line ∷ [])) r.1,
          append_assoc replies (line ∷ []) (lines_of (λ s. not (is_master s)) segments r.1),
        )
      ]

  -- If some segment is asked for, the reply is the line of the master's last segment, or an empty
  -- line if no segment is the master's, and then the line of each other segment in order, whatever
  -- the files hold and whichever file operation fails. A line tells what `GetStatus` returned for
  -- its segment.
  pub check_conversion_status-lines :
      (s : SegmentInfo) (segments : List SegmentInfo) (w : World)
      → (check_conversion_status exec state_dir hostname (s ∷ segments) w).0
        ≡ ok (
            last_or "" (lines_of is_master (s ∷ segments) w)
            ∷ lines_of (λ s. not (is_master s)) (s ∷ segments) w)
  unfolding check_conversion_status
  check_conversion_status-lines s segments w =
      ap (reply_of exec state_dir hostname) (check_segments-lines (s ∷ segments) "" [] w)
