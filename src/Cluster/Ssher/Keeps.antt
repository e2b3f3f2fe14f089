-- ===== src/Cluster/Ssher/Keeps.antt =====
-- The directories of the other steps around `VerifySoftware` and `Start`, and around the handlers that
-- start them.
use gpupgrade.Base.{String, Bool, true, false, ◌≢◌, Option, none, some, List, [], ◌∷◌}
use gpupgrade.System.{FilePath, ◌/◌, Error, Sys, pure, ◌>>=◌, Execer, run_command}
use gpupgrade.System.Keeps.{Keeps, Keeps-pure, Keeps-bind, Keeps-run_command}
use gpupgrade.Checklist.{
  new_checklist_manager, reset_state_dir, mark_in_progress, mark_failed, mark_complete,
}
use gpupgrade.Checklist.Keeps.{
  Keeps-reset_state_dir, Keeps-mark_in_progress, Keeps-mark_failed, Keeps-mark_complete,
}
use gpupgrade.Cluster.Ssher.{
  in_gphome, is_error, or_failed, ssh_command, ssh_all, remote_exec, handle_status_logging,
  start_command, verify_software, start,
}
use gpupgrade.Cluster.Ssher.Laws.{Spares, ssher}

module _ (exec : Execer) (base : FilePath) (gphome step other : String)
    (spares : Spares exec (base / other)) (apart : step ≢ other) where
  abbrev d : FilePath
  d = base / other

  pub ssh_all-Keeps :
      (hosts command : List String) (b : Bool) → Keeps d (ssh_all exec hosts command b)
  unfolding ssh_all
  ssh_all-Keeps [] command b = Keeps-pure d b
  ssh_all-Keeps (h ∷ hosts) command b =
      let c = ssh_command h command in
      Keeps-bind d (run_command exec c) _ (Keeps-run_command d exec c (λ log fs. spares log c fs))
        λ outcome. ssh_all-Keeps hosts command (or_failed b outcome.error)

  logging-Keeps : (b : Bool) → Keeps d (handle_status_logging (ssher base gphome) step b)
  unfolding handle_status_logging
  logging-Keeps true =
      Keeps-bind d (mark_failed (new_checklist_manager base) step) _
        (Keeps-mark_failed base step other apart) λ x. Keeps-pure d tt
  logging-Keeps false =
      Keeps-bind d (mark_complete (new_checklist_manager base) step) _
        (Keeps-mark_complete base step other apart) λ x. Keeps-pure d tt

  module _ (hosts command : List String) where
    abbrev when_marked : Option Error → Sys Bool
    when_marked (some e) = pure true
    when_marked none = ssh_all exec hosts command false

    when_marked-Keeps : (e : Option Error) → Keeps d (when_marked e)
    when_marked-Keeps (some e) = Keeps-pure d true
    when_marked-Keeps none = ssh_all-Keeps hosts command false

    abbrev when_cleared : Option Error → Sys Bool
    when_cleared (some e) = pure true
    when_cleared none = do
      marked ← mark_in_progress (new_checklist_manager base) step
      when_marked marked

    when_cleared-Keeps : (e : Option Error) → Keeps d (when_cleared e)
    when_cleared-Keeps (some e) = Keeps-pure d true
    when_cleared-Keeps none =
        Keeps-bind d (mark_in_progress (new_checklist_manager base) step) _
          (Keeps-mark_in_progress base step other apart) λ marked. when_marked-Keeps marked

    remote_exec-Keeps : Keeps d (remote_exec exec (ssher base gphome) hosts step command)
    unfolding remote_exec
    remote_exec-Keeps =
        Keeps-bind d (reset_state_dir (new_checklist_manager base) step) _
          (Keeps-reset_state_dir base step other apart) λ cleared. when_cleared-Keeps cleared

module _ (exec : Execer) (base : FilePath) (gphome other : String)
    (spares : Spares exec (base / other)) (hosts : List String) where
  pub verify_software-Keeps :
      "seginstall" ≢ other → Keeps (base / other) (verify_software exec (ssher base gphome) hosts)
  unfolding verify_software
  verify_software-Keeps apart =
      let command = "ls" ∷ in_gphome gphome "bin/gpupgrade_agent" ∷ [] in
      Keeps-bind (base / other) (remote_exec exec (ssher base gphome) hosts "seginstall" command) _
        (remote_exec-Keeps exec base gphome "seginstall" other spares apart hosts command)
        λ b. logging-Keeps exec base gphome "seginstall" other spares apart b

  pub start-Keeps :
      (pinged : Option Error)
      → "start-agents" ≢ other
      → Keeps (base / other) (start exec (ssher base gphome) hosts pinged)
  unfolding start
  start-Keeps pinged apart =
      Keeps-bind (base / other)
        (remote_exec exec (ssher base gphome) hosts "start-agents" (start_command gphome)) _
        (remote_exec-Keeps exec base gphome "start-agents" other spares apart hosts
          (start_command gphome))
        λ b. logging-Keeps exec base gphome "start-agents" other spares apart (is_error pinged)
