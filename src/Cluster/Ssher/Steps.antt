-- ===== src/Cluster/Ssher/Steps.antt =====
-- hub/cluster_ssher/cluster_ssher.go: the two steps, read back by the status checker.
use mathlib.Core.Path.{subst}
use gpupgrade.Base.{String, Bool, true, false, ◌≡◌, ap, Option, none, List, [], ◌∷◌, any}
use gpupgrade.System.{FilePath, ◌/◌, Error, World, Execer}
use gpupgrade.Idl.{UpgradeSteps, seginstall, prepare_start_agents}
use gpupgrade.Checklist.Calm.{Exists, Gives, begun}
use gpupgrade.Checklist.Lifecycle.{failed, done}
use gpupgrade.Status.StateCheck.{StateCheck, get_status, reply}
use gpupgrade.Status.StateCheck.Laws.{get_status-Shows}
use gpupgrade.Cluster.Ssher.{
  in_gphome, is_error, verify_software, start, start_command, remote_exec,
}
use gpupgrade.Cluster.Ssher.Laws.{
  Spares, ssh_errors, ssher, outcome_status, outcome_phase, remote_exec-started, logged-status,
}

abbrev step_check : FilePath → String → UpgradeSteps → StateCheck
step_check base name step = record { path = base / name; step = step }

shown_after :
    (base : FilePath) (name : String) (step : UpgradeSteps) (b : Bool) (r : Option Error × World)
    → Gives (base / name) (outcome_phase b) r
    → (get_status (step_check base name step) r.1).0 ≡ reply step (outcome_status b)
shown_after base name step true r (e, quiet, h) =
    ap (λ x. x.0) (get_status-Shows (step_check base name step) failed r.1 quiet h)
shown_after base name step false r (e, quiet, h) =
    ap (λ x. x.0) (get_status-Shows (step_check base name step) done r.1 quiet h)

pub verify_software-Gives :
    (exec : Execer) (base : FilePath) (gphome : String) (hosts : List String) (w : World)
    → (calm : w.faults ≡ []) → (there : Exists base w.fs)
    → (spares : Spares exec (base / "seginstall"))
    → let errors =
        ssh_errors exec hosts
          ("ls" ∷ in_gphome gphome "bin/gpupgrade_agent" ∷ [])
          (begun base "seginstall" w) in
      Gives
        (base / "seginstall")
        (outcome_phase (any is_error errors))
        (none, (verify_software exec (ssher base gphome) hosts w).1)
unfolding verify_software
verify_software-Gives exec base gphome hosts w calm there spares =
    let command = "ls" ∷ in_gphome gphome "bin/gpupgrade_agent" ∷ [] in
    let r = remote_exec exec (ssher base gphome) hosts "seginstall" command w in
    let (failure, quiet, h) =
      remote_exec-started exec base gphome "seginstall" w calm there spares hosts command in
    subst
      (λ b.
        Gives (base / "seginstall") (outcome_phase b)
          (none, (verify_software exec (ssher base gphome) hosts w).1))
      failure (logged-status exec base gphome "seginstall" w calm there spares r.0 r.1 quiet h)

pub start-Gives :
    (exec : Execer) (base : FilePath) (gphome : String) (hosts : List String)
    (pinged : Option Error) (w : World)
    → (calm : w.faults ≡ []) → (there : Exists base w.fs)
    → (spares : Spares exec (base / "start-agents"))
    → Gives
        (base / "start-agents")
        (outcome_phase (is_error pinged))
        (none, (start exec (ssher base gphome) hosts pinged w).1)
unfolding start
start-Gives exec base gphome hosts pinged w calm there spares =
    let command = start_command gphome in
    let r = remote_exec exec (ssher base gphome) hosts "start-agents" command w in
    let (failure, quiet, h) =
      remote_exec-started exec base gphome "start-agents" w calm there spares hosts command in
    logged-status exec base gphome "start-agents" w calm there spares (is_error pinged) r.1 quiet h

-- If no file operation fails, the state directory exists and the commands leave the step's own
-- directory alone, then after `VerifySoftware` the step is complete if `ls` failed on no host, and
-- failed if it failed on one.
pub verify_software-status :
    (exec : Execer) (base : FilePath) (gphome : String) (hosts : List String) (w : World)
    → (calm : w.faults ≡ []) → (there : Exists base w.fs)
    → (spares : Spares exec (base / "seginstall"))
    → let w' = (verify_software exec (ssher base gphome) hosts w).1 in
      let errors =
        ssh_errors exec hosts
          ("ls" ∷ in_gphome gphome "bin/gpupgrade_agent" ∷ [])
          (begun base "seginstall" w) in
      (get_status (step_check base "seginstall" seginstall) w').0
      ≡ reply seginstall (outcome_status (any is_error errors))
verify_software-status exec base gphome hosts w calm there spares =
    shown_after base "seginstall" seginstall _ _
      (verify_software-Gives exec base gphome hosts w calm there spares)

-- If no file operation fails, the state directory exists and the commands leave the step's own
-- directory alone, then after `Start` the step is complete if the agents answered the pinger, and
-- failed if they did not, whatever became of the commands on the hosts.
pub start-status :
    (exec : Execer) (base : FilePath) (gphome : String) (hosts : List String)
    (pinged : Option Error) (w : World)
    → (calm : w.faults ≡ []) → (there : Exists base w.fs)
    → (spares : Spares exec (base / "start-agents"))
    → let w' = (start exec (ssher base gphome) hosts pinged w).1 in
      (get_status (step_check base "start-agents" prepare_start_agents) w').0
      ≡ reply prepare_start_agents (outcome_status (is_error pinged))
start-status exec base gphome hosts pinged w calm there spares =
    shown_after base "start-agents" prepare_start_agents (is_error pinged) _
      (start-Gives exec base gphome hosts pinged w calm there spares)
