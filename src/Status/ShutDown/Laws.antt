-- ===== src/Status/ShutDown/Laws.antt =====
-- hub/upgradestatus/shutdown_clusters.go: which shutdowns are reported as which status.
use gpupgrade.Base.{
  sym, ap, ◌∙◌, ◌≡◌, ◌≢◌, ◌↔◌, String, true, false, none, some, List, [], ◌∷◌, arith, length,
  if◌then◌else◌, Option-cases, inl, inr,
}
use gpupgrade.System.{
  FilePath, star, name, Pattern, Fs, Node, node_at, stat_file, glob_files, World, Execer, Cmd,
  output, run_command, stat_calm, glob_calm,
}
use gpupgrade.System.FilesLaws.{subtree, glob-subtree}
use gpupgrade.Idl.{stopped_cluster, complete, failed, running, pending}
use gpupgrade.Status.StateCheck.{reply}
use gpupgrade.Status.ConvertMaster.{found_pids, any_files}
use gpupgrade.Status.ShutDown.{
  ShutDownClusters, in_progress_files_exist, two_files, is_stop_complete, is_gpstop_running,
  in_shutdown, finished_status, get_status,
}

-- `<dir>/*/<marker>`
abbrev pub markers : FilePath → String → Pattern
markers dir marker = record { dir = dir; parts = star ∷ name marker ∷ [] }

module _ (exec : Execer) (s : ShutDownClusters)
    (spares : (log : List Cmd) (c : Cmd) (fs : Fs)
      → subtree s.gpstop_state_path (exec log c fs).1 ≡ subtree s.gpstop_state_path fs) where
  abbrev pub in_progress : World → List FilePath
  in_progress w = glob_files (markers s.gpstop_state_path "in.progress") w.fs

  abbrev pub completed : World → List FilePath
  completed w = glob_files (markers s.gpstop_state_path "completed") w.fs

  in_progress-calm :
      (w : World)
      → w.faults ≡ []
      → in_progress_files_exist s.gpstop_state_path w ≡ (any_files (in_progress w) none, w)
  unfolding in_progress_files_exist
  in_progress-calm w calm =
      ground (arith, glob_calm (markers s.gpstop_state_path "in.progress") w calm)

  finished-calm :
      (w : World)
      → w.faults ≡ []
      → (finished_status exec s.gpstop_state_path w).0
        ≡ reply stopped_cluster (
            if any_files (in_progress w) none
            then failed
            else if two_files (completed w) none
            then complete
            else failed)
  unfolding finished_status is_stop_complete
  finished-calm w calm =
      ground
        (arith, in_progress-calm w calm, glob_calm (markers s.gpstop_state_path "completed") w calm)

  abbrev pub pgrep : Cmd
  pgrep = record { mode = output; name = "pgrep"; args = "-f" ∷ "gpstop" ∷ [] }

  abbrev looked : World → World
  looked w = record w { fs = (exec w.commands pgrep w.fs).1; commands = pgrep ∷ w.commands }

  looked-glob :
      (marker : String) (w : World)
      → glob_files (markers s.gpstop_state_path marker) (looked w).fs
        ≡ glob_files (markers s.gpstop_state_path marker) w.fs
  looked-glob marker w =
      let d = s.gpstop_state_path in
      let parts = star ∷ name marker ∷ [] in
      sym (glob-subtree d parts (looked w).fs)
      ∙ ap (glob_files (markers d marker)) (spares w.commands pgrep w.fs)
      ∙ glob-subtree d parts w.fs

  two_files_iff : (l : List FilePath) → (two_files l none ≡ true) ↔ (length l ≡ 2)
  two_files_iff [] = ground arith
  two_files_iff (f ∷ []) = ground arith
  two_files_iff (f ∷ g ∷ []) = ground arith
  two_files_iff (f ∷ g ∷ h ∷ l) = ground arith

  any_files_iff : (l : List FilePath) → (any_files l none ≡ false) ↔ (l ≡ [])
  any_files_iff [] = ground arith
  any_files_iff (f ∷ l) = ground arith

  pub get_status-present :
      (w : World) (n : Node)
      → w.faults ≡ []
      → node_at s.gpstop_state_path w.fs ≡ some n
      → (get_status exec s w).0
        ≡ reply stopped_cluster (
            if any_files (in_progress w) none
            then (if found_pids (exec w.commands pgrep w.fs).0 then running else failed)
            else if two_files (completed w) none
            then complete
            else failed)
  unfolding get_status stat_file in_shutdown is_gpstop_running run_command
  get_status-present w n calm h = ground (
    arith,
    stat_calm s.gpstop_state_path w calm,
    looked-glob "in.progress" w,
    looked-glob "completed" w,
    in_progress-calm (looked w) calm,
    finished-calm (looked w) calm,
  )

  pub get_status-absent :
      (w : World)
      → w.faults ≡ []
      → node_at s.gpstop_state_path w.fs ≡ none
      → (get_status exec s w).0 ≡ reply stopped_cluster pending
  unfolding get_status stat_file
  get_status-absent w calm h = ground (arith, stat_calm s.gpstop_state_path w calm)

  -- If no file operation fails and looking for the process leaves the directory of the shutdown
  -- alone, the shutdown is reported as complete exactly where its directory is there, no cluster is marked as in progress, and two
  -- clusters, no fewer and no more, are marked as completed.
  pub stopped-complete :
      (w : World)
      → w.faults ≡ []
      → ((get_status exec s w).0 ≡ reply stopped_cluster complete) ↔ (
          (node_at s.gpstop_state_path w.fs ≢ none)
          × (in_progress w ≡ [])
          × (length (completed w) ≡ 2))
  stopped-complete w calm = elim (Option-cases (node_at s.gpstop_state_path w.fs)) [
    | inl absent ↦ ground (arith, get_status-absent w calm absent)
    | inr (n, there) ↦ ground (
      arith,
      get_status-present w n calm there,
      two_files_iff (completed w),
      any_files_iff (in_progress w),
    )
  ]
