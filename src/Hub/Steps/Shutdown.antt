-- ===== src/Hub/Steps/Shutdown.antt =====
-- hub/services/hub_prepare_shutdown_clusters.go with hub/cluster/cluster_pair.go and
-- hub/upgradestatus/shutdown_clusters.go: the first shutdown, from the request to the status.
use gpupgrade.Base.{
  String, ◌<>◌, Bool, true, false, not, ◌&&◌, ◌||◌, ◌≡◌, refl, sym, ◌∙◌, ap, none, some, [], ◌∷◌,
  List, arith, if◌then◌else◌, Bool-cases, inl, inr,
}
use gpupgrade.System.{
  run_background, Sys, FilePath, ◌/◌, Fs, dir, World, Execer, Cmd, run, run_command, node_at,
}
use gpupgrade.System.FilesLaws.{
  subtree, subtree-subtree, subtree-cons, node_at_empty, node_at-subtree,
}
use gpupgrade.System.PathLaws.{is_within_self, is_within-append, not_within_shorter}
use gpupgrade.Idl.{StepStatus, stopped_cluster}
use gpupgrade.Checklist.Lifecycle.{missing}
use gpupgrade.Checklist.Calm.{Exists}
use gpupgrade.Checklist.Outside.{with_dir, with_dir-Exists, DirsTo-last, DirsTo-but_last}
use gpupgrade.Status.StateCheck.{Reply, reply}
use gpupgrade.Status.ShutDown.{get_status}
use gpupgrade.Status.ShutDown.Laws.{get_status-absent}
use gpupgrade.Status.ShutDown.Markers.{
  NoStrays, NoStrays-fresh, NoStrays-spared, old-Outside, new-Outside,
}
use gpupgrade.Status.ShutDown.Both.{both_status, get_status-both}
use gpupgrade.Cluster.Ssher.Laws.{Spares}
use gpupgrade.Cluster.Pair.{
  Pair, stop_everything, either_postmaster_running, postmaster_running, is_none,
}
use gpupgrade.Cluster.Pair.Shutdown.{
  old_failed, new_failed, stopped_phase, stop_everything-Shown, stop_everything-Stable,
}
use gpupgrade.Cluster.Pair.Fresh.{stop_everything-made, failed-made}
use gpupgrade.Hub.Steps.{prepare_shutdown_clusters}

-- How the master of a cluster is looked for.
abbrev pub pgrep_command : String → Cmd
pgrep_command master_data_dir = record {
  mode = run;
  name = "bash";
  args = "-c" ∷ ("pgrep -F " <> (master_data_dir <> "/postmaster.pid")) ∷ [];
}

-- The status after a first shutdown, by which cluster was found running and which `gpstop` failed.
abbrev pub shutdown_outcome : Bool → Bool → Bool → Bool → StepStatus
shutdown_outcome old_running new_running old_failed new_failed =
    if old_running || new_running
    then (if (old_running && new_running) && (not old_failed && not new_failed)
        then StepStatus.complete
        else StepStatus.failed)
    else StepStatus.pending

both_status-first :
    (found old_running new_running old_failed new_failed : Bool)
    → (old_running || new_running) ≡ true
    → both_status found
        (stopped_phase old_running old_failed missing)
        (stopped_phase new_running new_failed missing)
      ≡ shutdown_outcome old_running new_running old_failed new_failed
both_status-first found true true true true h = refl
both_status-first found true true true false h = refl
both_status-first found true true false true h = refl
both_status-first found true true false false h = refl
both_status-first found true false true g h = refl
both_status-first found true false false g h = refl
both_status-first found false true f true h = refl
both_status-first found false true f false h = refl
both_status-first found false false f g h = ground arith

outcome-pending :
    (old_running new_running old_failed new_failed : Bool)
    → (old_running || new_running) ≡ false
    → shutdown_outcome old_running new_running old_failed new_failed ≡ StepStatus.pending
outcome-pending old_running new_running old_failed new_failed h = ground arith

module _ (exec : Execer) (base : FilePath) where
  abbrev gpstop : FilePath
  gpstop = base / "gpstop"

  module _ (spares : Spares exec gpstop)
      (stands : (log : List Cmd) (c : Cmd) (fs : Fs)
        → Exists base fs
        → Exists base (exec log c fs).1) where
    gpstop-stands :
        (log : List Cmd) (c : Cmd) (fs : Fs) → Exists gpstop fs → Exists gpstop (exec log c fs).1
    gpstop-stands log c fs h =
        let (before, at) = DirsTo-but_last [] base "gpstop" fs h in
        let inside = is_within_self gpstop in
        DirsTo-last [] base "gpstop" (exec log c fs).1 (stands log c fs before) (
          sym (node_at-subtree gpstop gpstop (exec log c fs).1 inside)
          ∙ ap (node_at gpstop) (spares log c fs)
          ∙ node_at-subtree gpstop gpstop fs inside
          ∙ at)

    -- A shutdown that has not been asked for yet: the state directory is there and holds nothing of it.
    record Fresh (w : World) : Type 0 where
      calm : w.faults ≡ []
      there : Exists base w.fs
      nothing : subtree gpstop w.fs ≡ []

    cluster-fresh :
        (name : String) (w : World)
        → subtree gpstop w.fs ≡ (gpstop, dir) ∷ []
        → subtree (gpstop / name) w.fs ≡ []
    cluster-fresh name w only =
        sym (subtree-subtree gpstop (gpstop / name) w.fs (is_within-append gpstop (name ∷ [])))
        ∙ rw (only, subtree-cons, not_within_shorter gpstop name []) (unfold subtree in refl)

    -- After a cluster has been stopped that never was before.
    stopped-status :
        (cp : Pair) (w : World)
        → Fresh w
        → (cp.old_postmaster_running || cp.new_postmaster_running) ≡ true
        → let w' = (stop_everything exec gpstop cp w).1 in
          (get_status exec (record { gpstop_state_path = gpstop }) w').0
          ≡ reply stopped_cluster (
              shutdown_outcome cp.old_postmaster_running cp.new_postmaster_running
                (old_failed exec gpstop cp w)
                (new_failed exec gpstop cp w))
    stopped-status cp w h is_running =
        let fresh = node_at_empty gpstop w.fs h.nothing in
        let v = with_dir base "gpstop" "" w h.calm h.there fresh in
        let same = failed-made exec base "gpstop" w h.calm h.there fresh cp in
        let only : subtree gpstop v.fs ≡ (gpstop, dir) ∷ [] =
          subtree-cons gpstop gpstop dir w.fs ∙ rw (is_within_self gpstop, h.nothing) refl in
        let shown =
          stop_everything-Shown exec gpstop cp spares gpstop-stands missing missing v (record {
            calm = h.calm;
            there = with_dir-Exists base "gpstop" "" w h.calm h.there fresh;
            own = cluster-fresh "gpstop.old" v only;
            beside = cluster-fresh "gpstop.new" v only;
          }) in
        let none_else =
          (stop_everything-Stable exec gpstop (NoStrays gpstop)
              (λ log c fs. NoStrays-spared gpstop fs (exec log c fs).1 (spares log c fs)) cp
              (old-Outside gpstop) (new-Outside gpstop)).stays
            v (NoStrays-fresh gpstop v.fs only) in
        rw (stop_everything-made exec base "gpstop" w h.calm h.there fresh cp is_running) (
          get_status-both exec (record { gpstop_state_path = gpstop }) spares _ _ _ dir shown.calm
            (DirsTo-but_last [] base "gpstop" _ shown.there).1 none_else shown.own shown.beside
          ∙ ap (reply stopped_cluster)
              (both_status-first _ _ _ _ _ is_running ∙ rw (same.0, same.1) refl))

    shutdown_reply : World → Reply
    shutdown_reply v = (get_status exec (record { gpstop_state_path = gpstop }) v).0

    ran_if :
        (b : Bool) (work : Sys (Unit {0})) (w : World)
        → b ≡ true
        → (run_background (if b then some work else none) w).1 ≡ (work w).1
    ran_if true work w h = refl
    ran_if false work w h = absurd (ground arith)

    ran_none :
        (b : Bool) (work : Sys (Unit {0})) (w : World)
        → b ≡ false
        → (run_background (if b then some work else none) w).1 ≡ w
    ran_none true work w h = absurd (ground arith)
    ran_none false work w h = refl

    -- What the request starts in the background has run to its end.
    background-status :
        (cp : Pair) (w : World)
        → Fresh w
        → let work = stop_everything exec gpstop cp in
          let is_running = cp.old_postmaster_running || cp.new_postmaster_running in
          let w' = (run_background (if is_running then some work else none) w).1 in
          (get_status exec (record { gpstop_state_path = gpstop }) w').0
          ≡ reply stopped_cluster (
              shutdown_outcome cp.old_postmaster_running cp.new_postmaster_running
                (old_failed exec gpstop cp w)
                (new_failed exec gpstop cp w))
    unfolding shutdown_reply
    background-status cp w h =
        let is_running = cp.old_postmaster_running || cp.new_postmaster_running in
        elim (Bool-cases is_running) [
          | inl yes_running ↦
              ap shutdown_reply (ran_if is_running (stop_everything exec gpstop cp) w yes_running)
              ∙ stopped-status cp w h yes_running
          | inr neither ↦
              ap shutdown_reply (ran_none is_running (stop_everything exec gpstop cp) w neither)
              ∙ get_status-absent exec (record { gpstop_state_path = gpstop }) spares w h.calm
                  (node_at_empty gpstop w.fs h.nothing)
              ∙ ap (reply stopped_cluster) (
                  sym (
                    outcome-pending cp.old_postmaster_running cp.new_postmaster_running
                      (old_failed exec gpstop cp w) (new_failed exec gpstop cp w) neither))
        ]

    -- Let the request look for the two masters in the world `w`, and what it starts in the background,
    -- if anything, begin in the world `v` and run to its end. If no file operation fails from then on,
    -- the state directory is there and holds nothing of a shutdown, and the commands leave the directory
    -- of the shutdown alone and the state directory in its place, then the status of the shutdown is
    -- PENDING if neither `pgrep` succeeded, COMPLETE if both did and neither `gpstop` fails, and FAILED in
    -- every other case: so it is FAILED after one of the clusters was running and has been stopped
    -- without an error.
    pub prepare_shutdown_clusters-status :
        (cp : Pair) (w v : World)
        → v.faults ≡ []
        → Exists base v.fs
        → subtree gpstop v.fs ≡ []
        → let (work, found) = (prepare_shutdown_clusters exec base cp w).0 in
          let (old, w1) = run_command exec (pgrep_command cp.old_master_data_directory) w in
          let (new, w2) = run_command exec (pgrep_command cp.new_master_data_directory) w1 in
          (found.old_postmaster_running ≡ is_none old.error)
          × (found.new_postmaster_running ≡ is_none new.error)
          × ((get_status exec (record { gpstop_state_path = gpstop }) (run_background work v).1).0
              ≡ reply stopped_cluster (
                  shutdown_outcome found.old_postmaster_running found.new_postmaster_running
                    (old_failed exec gpstop found v)
                    (new_failed exec gpstop found v)))
    unfolding prepare_shutdown_clusters either_postmaster_running postmaster_running
    prepare_shutdown_clusters-status cp w v calm there nothing =
        let found = (either_postmaster_running exec cp w).0.1 in
        (
          refl,
          refl,
          background-status found v (record { calm = calm; there = there; nothing = nothing }),
        )
