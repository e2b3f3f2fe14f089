-- ===== src/Cluster/Ssher/Laws.antt =====
-- hub/cluster_ssher/cluster_ssher.go: a round of commands over the hosts.
use mathlib.Core.List.{append_assoc, reverse, reverse-append}
use gpupgrade.Base.{
  String, Bool, true, false, ◌||◌, ◌≡◌, refl, sym, ◌∙◌, ap, Option, none, some, List, [], ◌∷◌, ◌++◌,
  map, arith, any,
}
use gpupgrade.System.{FilePath, ◌/◌, Fs, Error, World, Execer, Cmd, run_command}
use gpupgrade.System.FilesLaws.{subtree}
use gpupgrade.Idl.{StepStatus, complete, failed}
use gpupgrade.Checklist.{new_checklist_manager}
use gpupgrade.Checklist.Lifecycle.{Phase, started, failed as gave_up, done, Shows}
use gpupgrade.Checklist.Calm.{
  Exists, Gives, begun, cleared-Gives, begun-Gives, Shows-subtree, fail-Gives, finish-Gives,
}
use gpupgrade.Cluster.Ssher.{
  ClusterSsher, is_error, or_failed, ssh_command, ssh_all, remote_exec, handle_status_logging,
}

-- The commands leave one directory alone.
abbrev pub Spares : Execer → FilePath → Type 0
Spares exec d = (log : List Cmd) (c : Cmd) (fs : Fs) → subtree d (exec log c fs).1 ≡ subtree d fs

or_failed-or :
    (b : Bool) (e : Option Error) (x : Bool) → (or_failed b e || x) ≡ (b || (is_error e || x))
or_failed-or b none x = refl
or_failed-or true (some e) x = refl
or_failed-or false (some e) x = refl

module _ (exec : Execer) where
  -- The errors of the commands, host by host.
  unfoldable pub ssh_errors : List String → List String → World → List (Option Error)
  ssh_errors [] command w = []
  ssh_errors (h ∷ hosts) command w =
      let (outcome, w') = run_command exec (ssh_command h command) w in
      outcome.error ∷ ssh_errors hosts command w'

  ssh_all-any :
      (hosts command : List String) (b : Bool) (w : World)
      → (ssh_all exec hosts command b w).0 ≡ (b || any is_error (ssh_errors hosts command w))
  unfolding ssh_all ssh_errors
  ssh_all-any [] command b w = ground arith
  ssh_all-any (h ∷ hosts) command b w =
      let (outcome, w') = run_command exec (ssh_command h command) w in
      ssh_all-any hosts command (or_failed b outcome.error) w'
      ∙ or_failed-or b outcome.error (any is_error (ssh_errors hosts command w'))

  -- A round of commands runs the command on every host, in order, whatever failed before.
  pub ssh_all-commands :
      (hosts command : List String) (b : Bool) (w : World)
      → (ssh_all exec hosts command b w).1.commands
        ≡ reverse (map (λ h. ssh_command h command) hosts) ++ w.commands
  unfolding ssh_all run_command
  ssh_all-commands [] command b w = refl
  ssh_all-commands (h ∷ hosts) command b w =
      let (outcome, w') = run_command exec (ssh_command h command) w in
      let c = ssh_command h command in
      let earlier = map (λ h. ssh_command h command) hosts in
      ssh_all-commands hosts command (or_failed b outcome.error) w'
      ∙ sym (append_assoc (reverse earlier) (c ∷ []) w.commands)
      ∙ ap (λ l. l ++ w.commands) (sym (reverse-append (c ∷ []) earlier))

  ssh_all-kept :
      (d : FilePath) (hosts command : List String) (b : Bool) (w : World)
      → Spares exec d
      → ((ssh_all exec hosts command b w).1.faults ≡ w.faults)
        × (subtree d (ssh_all exec hosts command b w).1.fs ≡ subtree d w.fs)
  unfolding ssh_all run_command
  ssh_all-kept d [] command b w spares = (refl, refl)
  ssh_all-kept d (h ∷ hosts) command b w spares =
      let c = ssh_command h command in
      let (outcome, w') = run_command exec c w in
      let (quiet, same) = ssh_all-kept d hosts command (or_failed b outcome.error) w' spares in
      (quiet, same ∙ spares w.commands c w.fs)

-- The outcome of a round of commands, as the checklist records it.
abbrev pub outcome_status : Bool → StepStatus
outcome_status true = failed
outcome_status false = complete

abbrev pub outcome_phase : Bool → Phase
outcome_phase true = gave_up
outcome_phase false = done

-- `NewClusterSsher` of the hub's main function, over the state directory.
abbrev pub ssher : FilePath → String → ClusterSsher
ssher base gphome = record { checklist_writer = new_checklist_manager base; gphome = gphome }

module _ (exec : Execer) (base : FilePath) (gphome step : String) (w : World) (calm : w.faults ≡ [])
    (there : Exists base w.fs) (spares : Spares exec (base / step)) where
  pub remote_exec-ssh_all :
      (hosts command : List String)
      → remote_exec exec (ssher base gphome) hosts step command w
        ≡ ssh_all exec hosts command false (begun base step w)
  unfolding remote_exec
  remote_exec-ssh_all hosts command =
      ground
        (arith, (cleared-Gives base step w calm there).0, (begun-Gives base step w calm there).0)

  -- Between the reset and the logging, the step is shown as started.
  pub remote_exec-started :
      (hosts command : List String)
      → let r = remote_exec exec (ssher base gphome) hosts step command w in
        (r.0 ≡ any is_error (ssh_errors exec hosts command (begun base step w)))
        × (r.1.faults ≡ [])
        × Shows (base / step) started r.1.fs
  remote_exec-started hosts command =
      let (quiet, kept) =
        ssh_all-kept exec (base / step) hosts command false (begun base step w) spares in
      rw (remote_exec-ssh_all hosts command) (
        ssh_all-any exec hosts command false (begun base step w),
        quiet ∙ (begun-Gives base step w calm there).1,
        Shows-subtree (base / step) started (begun base step w).fs _ kept
            (begun-Gives base step w calm there).2,
      )

  pub logged-status :
      (b : Bool) (v : World)
      → v.faults ≡ []
      → Shows (base / step) started v.fs
      → Gives
          (base / step)
          (outcome_phase b)
          (none, (handle_status_logging (ssher base gphome) step b v).1)
  unfolding handle_status_logging
  logged-status true v quiet h = let (e, q, k) = fail-Gives base step v quiet h in (refl, q, k)
  logged-status false v quiet h = let (e, q, k) = finish-Gives base step v quiet h in (refl, q, k)
