-- ===== src/Cluster/Pair/Shutdown.antt =====
-- hub/cluster/cluster_pair.go: the directories of both clusters after `StopEverything`.
use gpupgrade.Base.{
  String, Bool, true, false, ◌≡◌, ◌≢◌, refl, sym, ◌∙◌, ap, Option, none, some, [], ◌∷◌, List,
  text_ne,
}
use gpupgrade.System.{
  FilePath, ◌/◌, Fs, Error, World, Sys, pure, ◌>>=◌, ◌>>◌, Execer, Cmd, run_command,
}
use gpupgrade.System.PathLaws.{is_within-append}
use gpupgrade.System.FilesLaws.{subtree, subtree-subtree}
use gpupgrade.System.Stable.{Stable, Stable-pure, Stable-bind, Stable-if, Stable-run_command}
use gpupgrade.Checklist.{new_checklist_manager, reset_state_dir, mark_in_progress}
use gpupgrade.Checklist.Lifecycle.{Phase, Shows}
use gpupgrade.Checklist.Calm.{Exists, Shows-subtree}
use gpupgrade.Checklist.Stable.{
  Outside, Stable-reset_state_dir, Stable-mark_in_progress, Stable-mark_failed,
  Stable-mark_complete,
}
use gpupgrade.Checklist.Outside.{sibling-Outside, Exists-Outside}
use gpupgrade.Cluster.Ssher.{is_error}
use gpupgrade.Cluster.Ssher.Laws.{Spares, outcome_phase}
use gpupgrade.Cluster.Pair.{
  Pair, gpstop_command, record_outcome, stop_cluster, stop_if, stop_everything,
}
use gpupgrade.Cluster.Pair.Laws.{stop_cluster-Ended, stop_error}

module _ (exec : Execer) (gpstop : FilePath) (P : Fs → Type 0)
    (commands : (log : List Cmd) (c : Cmd) (fs : Fs) → P fs → P (exec log c fs).1) where
  module _ (step : String) (o : Outside (gpstop / step) P) where
    record_outcome-Stable :
        (e : Option Error) → Stable P (record_outcome exec (new_checklist_manager gpstop) step e)
    record_outcome-Stable none = Stable-mark_complete gpstop step P o
    record_outcome-Stable (some e) = Stable-mark_failed gpstop step P o

    module _ (bin_dir data_dir : String) where
      abbrev when_marked : Option Error → Sys (Unit {0})
      when_marked (some e) = pure tt
      when_marked none = do
        outcome ← run_command exec (gpstop_command exec bin_dir data_dir)
        record_outcome exec (new_checklist_manager gpstop) step outcome.error
        pure tt

      when_marked-Stable : (e : Option Error) → Stable P (when_marked e)
      when_marked-Stable (some e) = Stable-pure P tt
      when_marked-Stable none =
          let c = gpstop_command exec bin_dir data_dir in
          Stable-bind P (run_command exec c) _
            (Stable-run_command P exec c (λ log fs. commands log c fs))
            λ outcome.
              Stable-bind P (record_outcome exec (new_checklist_manager gpstop) step outcome.error)
                _ (record_outcome-Stable outcome.error) λ y. Stable-pure P tt

      -- What holds of the tree outside the cluster's own directory holds after it has been stopped.
      pub stop_cluster-Stable :
          Stable P (stop_cluster exec (new_checklist_manager gpstop) step bin_dir data_dir)
      unfolding stop_cluster
      stop_cluster-Stable =
          let manager = new_checklist_manager gpstop in
          Stable-bind P (reset_state_dir manager step) _ (Stable-reset_state_dir gpstop step P o)
            λ x.
              Stable-bind P (mark_in_progress manager step) _
                (Stable-mark_in_progress gpstop step P o) λ marked. when_marked-Stable marked

  pub stop_everything-Stable :
      (cp : Pair)
      → Outside (gpstop / "gpstop.old") P
      → Outside (gpstop / "gpstop.new") P
      → Stable P (stop_everything exec gpstop cp)
  unfolding stop_everything stop_if
  stop_everything-Stable cp o n =
      let manager = new_checklist_manager gpstop in
      let old =
        stop_cluster exec manager "gpstop.old" cp.old_bin_dir cp.old_master_data_directory in
      let new =
        stop_cluster exec manager "gpstop.new" cp.new_bin_dir cp.new_master_data_directory in
      Stable-bind P (stop_if exec cp.old_postmaster_running old) _
        (Stable-if P cp.old_postmaster_running old (pure tt)
          (stop_cluster-Stable "gpstop.old" o cp.old_bin_dir cp.old_master_data_directory)
          (Stable-pure P tt))
        λ x.
          Stable-if P cp.new_postmaster_running new (pure tt)
            (stop_cluster-Stable "gpstop.new" n cp.new_bin_dir cp.new_master_data_directory)
            (Stable-pure P tt)

-- The phase of a cluster's directory afterwards.
abbrev pub stopped_phase : Bool → Bool → Phase → Phase
stopped_phase true failed before = outcome_phase failed
stopped_phase false failed before = before

module _ (exec : Execer) (gpstop : FilePath) (cp : Pair) where
  -- Where the second cluster's turn comes.
  abbrev pub old_stopped : World → World
  old_stopped w =
      let manager = new_checklist_manager gpstop in
      let stop =
        stop_cluster exec manager "gpstop.old" cp.old_bin_dir cp.old_master_data_directory in
      (stop_if exec cp.old_postmaster_running stop w).1

  -- Whether the `gpstop` of each cluster fails, if it comes to that.
  abbrev pub old_failed : World → Bool
  old_failed w =
      is_error (stop_error exec gpstop "gpstop.old" cp.old_bin_dir cp.old_master_data_directory w)

  abbrev pub new_failed : World → Bool
  new_failed w = is_error (
      stop_error exec gpstop "gpstop.new" cp.new_bin_dir cp.new_master_data_directory
        (old_stopped w))

module _ (exec : Execer) (gpstop : FilePath) (cp : Pair) (spares : Spares exec gpstop)
    (stands : (log : List Cmd) (c : Cmd) (fs : Fs)
      → Exists gpstop fs
      → Exists gpstop (exec log c fs).1) where
  Spares-inside : (name : String) → Spares exec (gpstop / name)
  Spares-inside name log c fs =
      let d = gpstop / name in
      let inside = is_within-append gpstop (name ∷ []) in
      sym (subtree-subtree gpstop d (exec log c fs).1 inside)
      ∙ ap (subtree d) (spares log c fs)
      ∙ subtree-subtree gpstop d fs inside

  -- What the directory of the shutdown shows of one cluster and of the other.
  pub record Shown (name other : String) (p q : Phase) (w : World) : Type 0 where
    pub calm : w.faults ≡ []
    pub there : Exists gpstop w.fs
    pub own : Shows (gpstop / name) p w.fs
    pub beside : Shows (gpstop / other) q w.fs

  -- One cluster, stopped if it runs.
  stop_if-Shown :
      (name other : String) (is_running : Bool) (bin_dir data_dir : String) (p q : Phase)
      (w : World)
      → name ≢ other
      → Shown name other p q w
      → let stop = stop_cluster exec (new_checklist_manager gpstop) name bin_dir data_dir in
        let failed = is_error (stop_error exec gpstop name bin_dir data_dir w) in
        Shown name other (stopped_phase is_running failed p) q (stop_if exec is_running stop w).1
  unfolding stop_if
  stop_if-Shown name other false bin_dir data_dir p q w apart h = h
  stop_if-Shown name other true bin_dir data_dir p q w apart h =
      let c = gpstop_command exec bin_dir data_dir in
      let (quiet, k) =
        stop_cluster-Ended exec gpstop name bin_dir data_dir w h.calm h.there
          (Spares-inside name) in
      let w' = (stop_cluster exec (new_checklist_manager gpstop) name bin_dir data_dir w).1 in
      let found = subtree (gpstop / other) w.fs in
      record {
        calm = quiet;
        there =
            (stop_cluster-Stable exec gpstop (Exists gpstop) stands name
                (Exists-Outside gpstop name) bin_dir data_dir).stays
              w h.there;
        own = k;
        beside =
            Shows-subtree (gpstop / other) q w.fs w'.fs
              ((stop_cluster-Stable exec gpstop (λ fs. subtree (gpstop / other) fs ≡ found)
                  (λ log c fs e. Spares-inside other log c fs ∙ e) name
                  (sibling-Outside gpstop name other found apart) bin_dir data_dir).stays
                w refl)
              h.beside;
      }

  swapped :
      {name other : String} {p q : Phase} {w : World}
      → Shown name other p q w
      → Shown other name q p w
  swapped h = record { calm = h.calm; there = h.there; own = h.beside; beside = h.own }

  -- If no file operation fails, the directory of the shutdown exists and the commands leave that directory
  -- alone, then after `StopEverything` the directory of each cluster that was found running shows the
  -- outcome of its `gpstop`, and that of the other is as before.
  pub stop_everything-Shown :
      (p q : Phase) (w : World)
      → Shown "gpstop.old" "gpstop.new" p q w
      → Shown "gpstop.old" "gpstop.new"
          (stopped_phase cp.old_postmaster_running (old_failed exec gpstop cp w) p)
          (stopped_phase cp.new_postmaster_running (new_failed exec gpstop cp w) q)
          (stop_everything exec gpstop cp w).1
  unfolding stop_everything
  stop_everything-Shown p q w h = swapped (
      stop_if-Shown "gpstop.new" "gpstop.old" cp.new_postmaster_running cp.new_bin_dir
        cp.new_master_data_directory q _ _ (text_ne _ _ refl)
        (swapped (
          stop_if-Shown "gpstop.old" "gpstop.new" cp.old_postmaster_running cp.old_bin_dir
            cp.old_master_data_directory p q w (text_ne _ _ refl) h)))
