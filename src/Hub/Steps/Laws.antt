-- ===== src/Hub/Steps/Laws.antt =====
-- The state directory after the steps of `Hub.Steps`.
use gpupgrade.Base.{String, Bool, true, false, ◌≡◌, refl, ◌∙◌, ap, Option, none, some, [], arith}
use gpupgrade.System.{FilePath, ◌/◌, Error, World, Execer, Cmd, run_command}
use gpupgrade.Idl.{UpgradeSteps, validate_start_cluster, reconfigure_ports}
use gpupgrade.Checklist.{new_checklist_manager}
use gpupgrade.Checklist.Lifecycle.{Phase, Shows, started}
use gpupgrade.Checklist.Calm.{
  Exists, begun, begun-Gives, cleared-Gives, fail-Gives, finish-Gives, Shows-subtree,
}
use gpupgrade.Status.StateCheck.{StateCheck, get_status, reply}
use gpupgrade.Status.StateCheck.Laws.{get_status-Shows, phase_status}
use gpupgrade.Cluster.Pair.{Pair, get_ports_and_data_dir_for_reconfiguration}
use gpupgrade.Cluster.Ssher.{is_error}
use gpupgrade.Cluster.Ssher.Laws.{Spares, outcome_status, outcome_phase}
use gpupgrade.Hub.Steps.{
  gpstart_command, sed_command, start_new_cluster, end_validation, upgrade_reconfigure_ports,
  end_reconfigure,
}

abbrev pub step_check : FilePath → String → UpgradeSteps → StateCheck
step_check base name step = record { path = base / name; step = step }

outcome_phase-status : (b : Bool) → phase_status (outcome_phase b) ≡ outcome_status b
outcome_phase-status true = refl
outcome_phase-status false = refl

-- A world in which the step is shown as ended.
abbrev pub Ended : FilePath → String → Bool → World → Type 0
Ended base name b w = (w.faults ≡ []) × Shows (base / name) (outcome_phase b) w.fs

pub shown_status :
    (base : FilePath) (name : String) (step : UpgradeSteps) (b : Bool) (w : World)
    → Ended base name b w
    → (get_status (step_check base name step) w).0 ≡ reply step (outcome_status b)
shown_status base name step b w (quiet, h) =
    ap (λ x. x.0) (get_status-Shows (step_check base name step) (outcome_phase b) w quiet h)
    ∙ ap (reply step) (outcome_phase-status b)

module _ (exec : Execer) (base : FilePath) where
  -- A command that leaves the step's directory alone leaves it as started.
  pub ran :
      (name : String) (c : Cmd) (p : Phase) (w : World)
      → Spares exec (base / name)
      → Shows (base / name) p w.fs
      → Shows (base / name) p (run_command exec c w).1.fs
  unfolding run_command
  ran name c p w spares h = Shows-subtree (base / name) p w.fs _ (spares w.commands c w.fs) h

  end_reconfigure-Ended :
      (e : Option Error) (w : World)
      → w.faults ≡ []
      → Shows (base / "reconfigure-ports") started w.fs
      → let r = end_reconfigure exec (new_checklist_manager base) e w in
        (r.0 ≡ e) × Ended base "reconfigure-ports" (is_error e) r.1
  unfolding end_reconfigure
  end_reconfigure-Ended none w calm h =
      let (e, quiet, k) = finish-Gives base "reconfigure-ports" w calm h in (refl, (quiet, k))
  end_reconfigure-Ended (some e) w calm h =
      let (_, quiet, k) = fail-Gives base "reconfigure-ports" w calm h in (refl, (quiet, k))

  pub reconfigure_ports-Ended :
      (cp : Pair) (w : World)
      → w.faults ≡ []
      → Exists base w.fs
      → Spares exec (base / "reconfigure-ports")
      → let (e, w') = upgrade_reconfigure_ports exec base cp w in
        Ended base "reconfigure-ports" (is_error e) w'
  unfolding upgrade_reconfigure_ports run_command
  reconfigure_ports-Ended cp w calm there spares =
      let (_, quiet, h) = begun-Gives base "reconfigure-ports" w calm there in
      let (old_port, new_port, dir) = get_ports_and_data_dir_for_reconfiguration cp in
      let v = begun base "reconfigure-ports" w in
      let r = run_command exec (sed_command new_port old_port dir) v in
      let (same, ended) =
        end_reconfigure-Ended r.0.error r.1 quiet (ran "reconfigure-ports" _ started v spares h) in
      rw same ended

  -- If no file operation fails, the state directory exists and the commands leave the step's own
  -- directory alone, then after `UpgradeReconfigurePorts` the step is complete if the reply has no
  -- error, and failed if it has one.
  pub reconfigure_ports-status :
      (cp : Pair) (w : World)
      → w.faults ≡ []
      → Exists base w.fs
      → Spares exec (base / "reconfigure-ports")
      → let (e, w') = upgrade_reconfigure_ports exec base cp w in
        (get_status (step_check base "reconfigure-ports" reconfigure_ports) w').0
        ≡ reply reconfigure_ports (outcome_status (is_error e))
  reconfigure_ports-status cp w calm there spares =
      let (e, w') = upgrade_reconfigure_ports exec base cp w in
      shown_status base "reconfigure-ports" reconfigure_ports (is_error e) w'
        (reconfigure_ports-Ended cp w calm there spares)

  end_validation-Ended :
      (e : Option Error) (w : World)
      → w.faults ≡ []
      → Shows (base / "validate-start-cluster") started w.fs
      → Ended base "validate-start-cluster"
          (is_error e)
          (end_validation exec (new_checklist_manager base) e w).1
  unfolding end_validation
  end_validation-Ended none w calm h =
      let (e, quiet, k) = finish-Gives base "validate-start-cluster" w calm h in (quiet, k)
  end_validation-Ended (some e) w calm h =
      let (_, quiet, k) = fail-Gives base "validate-start-cluster" w calm h in (quiet, k)

  pub start_new_cluster-ran :
      (pythonpath new_bin_dir new_data_dir : String) (w : World)
      → w.faults ≡ []
      → Exists base w.fs
      → start_new_cluster exec pythonpath base new_bin_dir new_data_dir w ≡ (
          let r =
            run_command exec
              (gpstart_command pythonpath new_bin_dir new_data_dir)
              (begun base "validate-start-cluster" w) in
          end_validation exec (new_checklist_manager base) r.0.error r.1)
  unfolding start_new_cluster
  start_new_cluster-ran pythonpath new_bin_dir new_data_dir w calm there = ground (
    arith,
    (cleared-Gives base "validate-start-cluster" w calm there).0,
    (begun-Gives base "validate-start-cluster" w calm there).0,
  )

  pub start_new_cluster-Ended :
      (pythonpath new_bin_dir new_data_dir : String) (w : World)
      → w.faults ≡ []
      → Exists base w.fs
      → Spares exec (base / "validate-start-cluster")
      → let w' = (start_new_cluster exec pythonpath base new_bin_dir new_data_dir w).1 in
        let (outcome, _) =
          run_command exec
            (gpstart_command pythonpath new_bin_dir new_data_dir)
            (begun base "validate-start-cluster" w) in
        Ended base "validate-start-cluster" (is_error outcome.error) w'
  unfolding run_command
  start_new_cluster-Ended pythonpath new_bin_dir new_data_dir w calm there spares =
      let name : String = "validate-start-cluster" in
      let (marked, quiet, h) = begun-Gives base name w calm there in
      let v = begun base name w in
      let r = run_command exec (gpstart_command pythonpath new_bin_dir new_data_dir) v in
      rw (start_new_cluster-ran pythonpath new_bin_dir new_data_dir w calm there)
        (end_validation-Ended r.0.error r.1 quiet (ran name _ started v spares h))

  -- If no file operation fails, the state directory exists and the commands leave the step's own
  -- directory alone, then after `startNewCluster` the step is complete if `gpstart` exited without an
  -- error, and failed if not.
  pub start_new_cluster-status :
      (pythonpath new_bin_dir new_data_dir : String) (w : World)
      → w.faults ≡ []
      → Exists base w.fs
      → Spares exec (base / "validate-start-cluster")
      → let w' = (start_new_cluster exec pythonpath base new_bin_dir new_data_dir w).1 in
        let (outcome, _) =
          run_command exec
            (gpstart_command pythonpath new_bin_dir new_data_dir)
            (begun base "validate-start-cluster" w) in
        (get_status (step_check base "validate-start-cluster" validate_start_cluster) w').0
        ≡ reply validate_start_cluster (outcome_status (is_error outcome.error))
  start_new_cluster-status pythonpath new_bin_dir new_data_dir w calm there spares =
      shown_status base "validate-start-cluster" validate_start_cluster _ _
        (start_new_cluster-Ended pythonpath new_bin_dir new_data_dir w calm there spares)
