-- ===== src/Status/StateCheck/Laws.antt =====
-- hub/upgradestatus/state_checker.go against the phases of `Checklist.Lifecycle`.
use gpupgrade.Base.{
  String, ◌≡◌, sym, ◌∙◌, ap, none, some, [], ◌∷◌, arith, ◌==◌, string_eq, list_eq, ==_iff,
  if◌then◌else◌,
}
use gpupgrade.System.{
  FilePath, ◌/◌, star, Pattern, path_matches, Fs, Node, dir, node_at, matching, glob_files,
  sort_paths, stat_file, World, stat_calm, glob_calm,
}
use gpupgrade.System.PathLaws.{below-append, is_within_self, below_self}
use gpupgrade.System.FilesLaws.{subtree, node_at-subtree, matching-subtree, node_at_empty}
use gpupgrade.Idl.{StepStatus, pending, running, complete, failed}
use gpupgrade.Checklist.Marks.{Holds, child_ne, child_eq}
use gpupgrade.Checklist.Lifecycle.{Phase, missing, idle, started, failed as gave_up, done, Shows}
use gpupgrade.Status.StateCheck.{StateCheck, get_status, reply, by_files}

abbrev pub phase_status : Phase → StepStatus
phase_status missing = pending
phase_status idle = pending
phase_status started = running
phase_status gave_up = failed
phase_status done = complete

abbrev pub children : FilePath → Pattern
children d = record { dir = d; parts = star ∷ [] }

pub children_of :
    (d : FilePath) (fs found : Fs)
    → subtree d fs ≡ found
    → glob_files (children d) fs ≡ sort_paths (matching (children d) found)
unfolding glob_files
children_of d fs found h =
    ap sort_paths (sym (matching-subtree d (star ∷ []) fs) ∙ ap (matching (children d)) h)

glob-clean : (d : FilePath) (fs : Fs) → Holds d none fs → glob_files (children d) fs ≡ []
unfolding matching path_matches sort_paths
glob-clean d fs h = children_of d fs _ h ∙ ground (arith, below_self d)

glob-marked :
    (d : FilePath) (name : String) (fs : Fs)
    → Holds d (some name) fs
    → glob_files (children d) fs ≡ d / name ∷ []
unfolding matching path_matches sort_paths
glob-marked d name fs (t, h) =
    children_of d fs _ h ∙ ground (arith, below_self d, below-append d (name ∷ []))

node-clean : (d : FilePath) (fs : Fs) → Holds d none fs → node_at d fs ≡ some dir
unfolding node_at
node-clean d fs h =
    sym (node_at-subtree d d fs (is_within_self d)) ∙ ap (node_at d) h ∙ ground (arith, ==_iff d d)

node-marked :
    (d : FilePath) (name : String) (fs : Fs) → Holds d (some name) fs → node_at d fs ≡ some dir
unfolding node_at
node-marked d name fs (t, h) =
    sym (node_at-subtree d d fs (is_within_self d))
    ∙ ap (node_at d) h
    ∙ ground (arith, ==_iff d d, child_ne d name)

-- What the two calls of `GetStatus` return, by what they find.
pub get_status_found :
    (c : StateCheck) (w : World) (n : Node)
    → w.faults ≡ []
    → node_at c.path w.fs ≡ some n
    → get_status c w ≡ (by_files c (glob_files (children c.path) w.fs), w)
unfolding get_status stat_file
get_status_found c w n calm h = ground (arith, stat_calm c.path w, glob_calm (children c.path) w)

get_status_missing :
    (c : StateCheck) (w : World)
    → w.faults ≡ []
    → node_at c.path w.fs ≡ none
    → get_status c w ≡ (reply c.step pending, w)
unfolding get_status stat_file
get_status_missing c w calm h = ground (arith, stat_calm c.path w)

by_one_file :
    (c : StateCheck) (name : String)
    → by_files c (c.path / name ∷ [])
      ≡ reply c.step (
          if name == "failed"
          then failed
          else if name == "completed"
          then complete
          else if name == "in.progress"
          then running
          else pending)
unfolding by_files
by_one_file c name = ground (
  arith,
  child_eq c.path name "failed",
  child_eq c.path name "completed",
  child_eq c.path name "in.progress",
)

get_status-marked :
    (c : StateCheck) (w : World) (name : String)
    → w.faults ≡ []
    → Holds c.path (some name) w.fs
    → get_status c w ≡ (by_files c (c.path / name ∷ []), w)
get_status-marked c w name calm h =
    get_status_found c w dir calm (node-marked c.path name w.fs h)
    ∙ rw (glob-marked c.path name w.fs h)

-- Where no file operation fails, `GetStatus` returns no error and the status of the phase that the
-- step's directory shows, and it changes nothing.
pub get_status-Shows :
    (c : StateCheck) (p : Phase) (w : World)
    → w.faults ≡ []
    → Shows c.path p w.fs
    → get_status c w ≡ (reply c.step (phase_status p), w)
unfolding by_files
get_status-Shows c missing w calm h = get_status_missing c w calm (node_at_empty c.path w.fs h)
get_status-Shows c idle w calm h =
    get_status_found c w dir calm (node-clean c.path w.fs h) ∙ rw (glob-clean c.path w.fs h)
get_status-Shows c started w calm h = get_status-marked c w "in.progress" calm h ∙ rw by_one_file
get_status-Shows c gave_up w calm h = get_status-marked c w "failed" calm h ∙ rw by_one_file
get_status-Shows c done w calm h = get_status-marked c w "completed" calm h ∙ rw by_one_file
