-- ===== src/Status/ShutDown/Both.antt =====
-- hub/upgradestatus/shutdown_clusters.go: the status, read off what the directories of the two clusters
-- show.
use gpupgrade.Base.{
  ℕ, ◌+◌, Bool, true, false, ◌&&◌, ◌||◌, ◌≡◌, refl, ◌∙◌, none, some, [], ◌∷◌, List, arith, length,
  if◌then◌else◌,
}
use gpupgrade.System.{FilePath, ◌/◌, Fs, Node, node_at, Execer, Cmd, World}
use gpupgrade.System.FilesLaws.{subtree}
use gpupgrade.Idl.{StepStatus, stopped_cluster}
use gpupgrade.Checklist.Lifecycle.{Phase, missing, idle, started, failed, done, Shows}
use gpupgrade.Status.StateCheck.{reply}
use gpupgrade.Status.ConvertMaster.{any_files, found_pids}
use gpupgrade.Status.ShutDown.{ShutDownClusters, two_files, get_status}
use gpupgrade.Status.ShutDown.Laws.{pgrep, in_progress, completed, get_status-present}
use gpupgrade.Status.ShutDown.Markers.{NoStrays, count, marker_of, length-markers}

abbrev is_started : Phase → Bool
is_started started = true
is_started p = false

abbrev is_done : Phase → Bool
is_done done = true
is_done p = false

abbrev one_if : Bool → ℕ
one_if true = 1
one_if false = 0

count_started : (p : Phase) → count "in.progress" (marker_of p) ≡ one_if (is_started p)
count_started missing = refl
count_started idle = refl
count_started started = refl
count_started failed = refl
count_started done = refl

count_done : (p : Phase) → count "completed" (marker_of p) ≡ one_if (is_done p)
count_done missing = refl
count_done idle = refl
count_done started = refl
count_done failed = refl
count_done done = refl

-- The status of the shutdown, by whether a `gpstop` runs and by the phases of the old and the new cluster.
abbrev pub both_status : Bool → Phase → Phase → StepStatus
both_status found p q =
    if is_started p || is_started q
    then (if found then StepStatus.running else StepStatus.failed)
    else if is_done p && is_done q
    then StepStatus.complete
    else StepStatus.failed

both_started :
    (l : List FilePath) (a b : Bool) → length l ≡ one_if a + one_if b → any_files l none ≡ (a || b)
both_started [] true true h = ground arith
both_started [] true false h = ground arith
both_started [] false true h = ground arith
both_started [] false false h = refl
both_started (f ∷ l) true b h = refl
both_started (f ∷ l) false true h = refl
both_started (f ∷ l) false false h = ground arith

both_done :
    (l : List FilePath) (a b : Bool) → length l ≡ one_if a + one_if b → two_files l none ≡ (a && b)
both_done [] true true h = ground arith
both_done [] true false h = refl
both_done [] false b h = refl
both_done (f ∷ []) true true h = ground arith
both_done (f ∷ []) true false h = refl
both_done (f ∷ []) false b h = refl
both_done (f ∷ g ∷ []) true true h = refl
both_done (f ∷ g ∷ []) true false h = ground arith
both_done (f ∷ g ∷ []) false true h = ground arith
both_done (f ∷ g ∷ []) false false h = ground arith
both_done (f ∷ g ∷ k ∷ l) true true h = ground arith
both_done (f ∷ g ∷ k ∷ l) true false h = refl
both_done (f ∷ g ∷ k ∷ l) false b h = refl

-- If no file operation fails, looking for the process leaves the directory of the shutdown alone, that
-- directory is there and holds no marker but in the directories of the two clusters, and these show
-- the phases `p` and `q`, then the status of the shutdown is FAILED or, if a `gpstop` is found, RUNNING
-- where one of them is started; COMPLETE where both are done; and FAILED in every other case.
pub get_status-both :
    (exec : Execer) (s : ShutDownClusters)
    (spares : (log : List Cmd) (c : Cmd) (fs : Fs)
      → subtree s.gpstop_state_path (exec log c fs).1 ≡ subtree s.gpstop_state_path fs)
    (p q : Phase) (w : World) (n : Node)
    → w.faults ≡ []
    → node_at s.gpstop_state_path w.fs ≡ some n
    → NoStrays s.gpstop_state_path w.fs
    → Shows (s.gpstop_state_path / "gpstop.old") p w.fs
    → Shows (s.gpstop_state_path / "gpstop.new") q w.fs
    → (get_status exec s w).0
      ≡ reply stopped_cluster
          (both_status (found_pids (exec w.commands (pgrep exec s spares) w.fs).0) p q)
get_status-both exec s spares p q w n calm there none_else h k =
    let d = s.gpstop_state_path in
    ground (
      arith,
      get_status-present exec s spares w n calm there,
      both_started (in_progress exec s spares w) (is_started p) (is_started q) (
          length-markers d "in.progress" p q w.fs none_else h k
          ∙ rw (count_started p, count_started q) refl),
      both_done (completed exec s spares w) (is_done p) (is_done q) (
          length-markers d "completed" p q w.fs none_else h k
          ∙ rw (count_done p, count_done q) refl),
    )
