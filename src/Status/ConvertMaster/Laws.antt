-- ===== src/Status/ConvertMaster/Laws.antt =====
-- hub/upgradestatus/pg_upgrade_status_checker.go: which conversions are reported as which status.
use mathlib.Core.Path.{subst}
use gpupgrade.Base.{
  ℕ, ◌≤◌, String, true, false, ◌≡◌, refl, sym, ◌∙◌, none, some, List, [], ◌∷◌, arith, ◌==◌,
  string_eq, if◌then◌else◌, any, All, contains_text, Option-cases, inl, inr, ◌≢◌, ◌↔◌, ◌⊎◌, ◌||◌,
  ==_iff, list_eq,
}
use gpupgrade.System.{
  FilePath, around, Pattern, Fs, Node, file, node_at, Error, Result-cases, ok, err, stat_file,
  read_content, glob_files, World, stat_calm, read_file_calm, glob_calm, Execer, run_command, Cmd,
  Outcome,
}
use gpupgrade.Idl.{masterupgrade, pending, running, complete, failed}
use gpupgrade.Status.StateCheck.{reply}
use gpupgrade.Status.DoneFile.{says_complete, says_complete-any, split_lines}
use gpupgrade.Status.ConvertMaster.{
  ConvertMaster, mod_time, later_file, latest_done, complete_in, is_upgrade_complete,
  in_progress_files_exist, any_files, searched, get_status, finished_status, pg_upgrade_running,
  pgrep, found_pids,
}

-- The last change of what a path names; what is not there is as old as can be.
abbrev pub time_at : FilePath → Fs → ℕ
time_at f fs = elim (stat_file f fs) [ err e ↦ 0 | ok n ↦ mod_time n ]

-- The loop over the done files, where every `Stat` answers from the tree.
pub pick : Fs → List FilePath → FilePath × ℕ → FilePath × ℕ
pick fs [] latest = latest
pick fs (f ∷ files) latest = pick fs files (later_file f latest (stat_file f fs))

latest_done-calm :
    (files : List FilePath) (latest : FilePath × ℕ) (w : World)
    → w.faults ≡ []
    → latest_done files latest w ≡ (pick w.fs files latest, w)
unfolding latest_done pick
latest_done-calm [] latest w calm = refl
latest_done-calm (f ∷ files) latest w calm =
    ground (arith, stat_calm f w, latest_done-calm files (later_file f latest (stat_file f w.fs)) w)

pick-ge :
    (fs : Fs) (files : List FilePath) (latest : FilePath × ℕ) → latest.1 ≤ (pick fs files latest).1
unfolding pick
pick-ge fs [] latest = omega arith
pick-ge fs (f ∷ files) latest =
    ground (arith, pick-ge fs files (later_file f latest (stat_file f fs)))

-- No file of the list is newer than the one picked.
pick-latest :
    (fs : Fs) (files : List FilePath) (latest : FilePath × ℕ)
    → All (λ f. time_at f fs ≤ (pick fs files latest).1) files
unfolding pick
pick-latest fs [] latest = tt
pick-latest fs (f ∷ files) latest = (
  ground (arith, pick-ge fs files (later_file f latest (stat_file f fs))),
  pick-latest fs files (later_file f latest (stat_file f fs)),
)

-- The time that goes with the file picked is the file's own.
pick-time :
    (fs : Fs) (files : List FilePath) (latest : FilePath × ℕ)
    → latest.1 ≡ time_at latest.0 fs
    → (pick fs files latest).1 ≡ time_at (pick fs files latest).0 fs
unfolding pick
pick-time fs [] latest h = h
pick-time fs (f ∷ files) latest h =
    pick-time fs files (later_file f latest (stat_file f fs)) (ground arith)

pick-mem :
    (fs : Fs) (files : List FilePath) (latest : FilePath × ℕ)
    → let p = (pick fs files latest).0 in ((latest.0 == p) || any (λ g. g == p) files) ≡ true
unfolding pick
pick-mem fs [] latest = ground (arith, ==_iff latest.0 latest.0)
pick-mem fs (f ∷ files) latest =
    ground (arith, pick-mem fs files (later_file f latest (stat_file f fs)))

-- The file of a list that was changed last has the line that pg_upgrade ends with.
abbrev pub LatestSays : List FilePath → Fs → Type 0
LatestSays files fs =
    (f : FilePath) × (text : String) × (t : ℕ) × (any (λ g. g == f) files ≡ true)
    × (node_at f fs ≡ some (file text t))
    × All (λ g. time_at g fs ≤ t) files
    × (any (λ l. contains_text l "Upgrade complete") (split_lines text).0 ≡ true)

read_content-node :
    (f : FilePath) (fs : Fs)
    → searched (read_content f fs) ≡ true
    → (text : String) × (t : ℕ) × (node_at f fs ≡ some (file text t)) × (says_complete text ≡ true)
unfolding read_content
read_content-node f fs h = ground arith

complete_in_cons :
    (f : FilePath) (files : List FilePath) (w : World) (n : Node)
    → w.faults ≡ []
    → stat_file f w.fs ≡ ok n
    → complete_in (f ∷ files) w
      ≡ (searched (read_content (pick w.fs files (f, mod_time n)).0 w.fs), w)
unfolding complete_in
complete_in_cons f files w n calm h = ground (
  arith,
  stat_calm f w,
  latest_done-calm files (f, mod_time n) w,
  read_file_calm (pick w.fs files (f, mod_time n)).0 w,
)

complete_in_unread :
    (f : FilePath) (files : List FilePath) (w : World) (e : Error)
    → w.faults ≡ []
    → stat_file f w.fs ≡ err e
    → complete_in (f ∷ files) w ≡ (false, w)
unfolding complete_in
complete_in_unread f files w e calm h = ground (arith, stat_calm f w)

complete_in_sound :
    (files : List FilePath) (w : World)
    → w.faults ≡ []
    → (complete_in files w).0 ≡ true
    → LatestSays files w.fs
complete_in_sound [] w calm h = unfold complete_in in cc
complete_in_sound (f ∷ files) w calm h = elim (Result-cases (stat_file f w.fs)) [
  | inl (e, bad) ↦
      let stopped : false ≡ true = rw (complete_in_unread f files w e calm bad) at h in cc
  | inr (n, good) ↦
      let p = pick w.fs files (f, mod_time n) in
      let (text, t, found, says) =
        read_content-node p.0 w.fs (rw (complete_in_cons f files w n calm good) at h) in
      let same : p.1 ≡ t =
        pick-time w.fs files (f, mod_time n) (ground arith) ∙ unfold stat_file in ground arith in
      let bound : All (λ g. time_at g w.fs ≤ p.1) (f ∷ files) = (
        ground (arith, pick-ge w.fs files (f, mod_time n)),
        pick-latest w.fs files (f, mod_time n),
      ) in
      (
        p.0,
        text,
        t,
        pick-mem w.fs files (f, mod_time n),
        found,
        subst (λ m. All (λ g. time_at g w.fs ≤ m) (f ∷ files)) same bound,
        sym (says_complete-any text) ∙ says,
      )
]

abbrev pub in_progress_pattern : FilePath → Pattern
in_progress_pattern path = record { dir = path; parts = around "" ".inprogress" ∷ [] }

abbrev pub done_pattern : FilePath → Pattern
done_pattern path = record { dir = path; parts = around "" ".done" ∷ [] }

in_progress-calm :
    (path : FilePath) (w : World)
    → w.faults ≡ []
    → in_progress_files_exist path w
      ≡ (any_files (glob_files (in_progress_pattern path) w.fs) none, w)
unfolding in_progress_files_exist
in_progress-calm path w calm = ground (arith, glob_calm (in_progress_pattern path) w)

is_upgrade_complete-calm :
    (path : FilePath) (w : World)
    → w.faults ≡ []
    → is_upgrade_complete path w ≡ complete_in (glob_files (done_pattern path) w.fs) w
unfolding is_upgrade_complete
is_upgrade_complete-calm path w calm = rw (glob_calm (done_pattern path) w calm)

finished_status_sound :
    (c : ConvertMaster) (exec : Execer) (w : World)
    → w.faults ≡ []
    → (finished_status exec c w).0 ≡ reply masterupgrade complete
    → (glob_files (in_progress_pattern c.pg_upgrade_path) w.fs ≡ [])
      × LatestSays (glob_files (done_pattern c.pg_upgrade_path) w.fs) w.fs
unfolding finished_status
finished_status_sound c exec w calm h =
    let path = c.pg_upgrade_path in
    let files = glob_files (done_pattern path) w.fs in
    let none_left : glob_files (in_progress_pattern path) w.fs ≡ [] =
      ground (arith, in_progress-calm path w) in
    let says : (complete_in files w).0 ≡ true =
      ground (arith, in_progress-calm path w, is_upgrade_complete-calm path w) in
    (none_left, complete_in_sound files w calm says)

-- The commands that look for processes leave the files as they are.
abbrev pub LeavesFiles : Execer → Type 0
LeavesFiles exec = (log : List Cmd) (c : Cmd) (fs : Fs) → (exec log c fs).1 ≡ fs

module _ (exec : Execer) (leaves : LeavesFiles exec) (c : ConvertMaster) (w : World) where
  abbrev pids : Outcome
  pids = (exec w.commands (pgrep c) w.fs).0

  abbrev looked : World
  looked = record w { fs = (exec w.commands (pgrep c) w.fs).1; commands = pgrep c ∷ w.commands }

  get_status-missing :
      w.faults ≡ []
      → node_at c.pg_upgrade_path w.fs ≡ none
      → (get_status exec c w).0 ≡ reply masterupgrade pending
  unfolding get_status stat_file
  get_status-missing calm h = ground (arith, stat_calm c.pg_upgrade_path w)

  get_status-present :
      (n : Node)
      → w.faults ≡ []
      → node_at c.pg_upgrade_path w.fs ≡ some n
      → (get_status exec c w).0 ≡ (
          if found_pids pids
          then reply masterupgrade running
          else (finished_status exec c looked).0)
  unfolding get_status stat_file pg_upgrade_running run_command
  get_status-present n calm h = ground (arith, stat_calm c.pg_upgrade_path w)

  finished-status :
      (v : World)
      → ((finished_status exec c v).0 ≡ reply masterupgrade complete)
        ⊎ ((finished_status exec c v).0 ≡ reply masterupgrade failed)
  unfolding finished_status
  finished-status v = ground arith

  -- If no file operation fails and looking for the process changes no file, a conversion is reported
  -- as pending exactly where its directory is not there, and as running exactly where that is there
  -- and pg_upgrade is found.
  pub get_status-pending-running :
      w.faults ≡ []
      → (((get_status exec c w).0 ≡ reply masterupgrade pending)
          ↔ (node_at c.pg_upgrade_path w.fs ≡ none))
        × (((get_status exec c w).0 ≡ reply masterupgrade running)
            ↔ ((node_at c.pg_upgrade_path w.fs ≢ none) × (found_pids pids ≡ true)))
  get_status-pending-running calm = elim (Option-cases (node_at c.pg_upgrade_path w.fs)) [
    | inl absent ↦ ground (arith, get_status-missing calm absent)
    | inr (n, there) ↦ ground (arith, get_status-present n calm there, finished-status looked)
  ]

  -- If no file operation fails and looking for the process changes no file, a conversion is reported
  -- as complete only where its directory is there, pg_upgrade is not running, no `*.inprogress` file
  -- is left, and the newest `*.done` file has a line, closed by a line end, that says so.
  pub get_status-complete :
      w.faults ≡ []
      → (get_status exec c w).0 ≡ reply masterupgrade complete
      → (node_at c.pg_upgrade_path w.fs ≢ none)
        × (found_pids pids ≡ false)
        × (glob_files (in_progress_pattern c.pg_upgrade_path) w.fs ≡ [])
        × LatestSays (glob_files (done_pattern c.pg_upgrade_path) w.fs) w.fs
  get_status-complete calm h = elim (Option-cases (node_at c.pg_upgrade_path w.fs)) [
    | inl absent ↦ ground (arith, get_status-missing calm absent)
    | inr (n, there) ↦
        let idle : found_pids pids ≡ false = ground (arith, get_status-present n calm there) in
        let ended : (finished_status exec c looked).0 ≡ reply masterupgrade complete =
          ground (arith, get_status-present n calm there) in
        let (settled, says) = finished_status_sound c exec looked calm ended in
        (rw there (λ e. cc), idle, rw leaves at settled, rw leaves at says)
  ]
