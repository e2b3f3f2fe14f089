-- ===== src/Cli/Reporter/Laws.antt =====
-- cli/commanders/reporter.go: reading a printed line back.
use Prim.Native.Char.{code}
use text.Mathlib.TextLemmas.{cons-append, append_cancel_left}
use gpupgrade.Base.{
  String, ◌<>◌, ◌≡◌, refl, sym, ◌∙◌, ap, List, [], ◌∷◌, ◌==◌, nat_eq, string_eq, if◌then◌else◌,
}
use gpupgrade.Idl.{
  UpgradeSteps, StepStatus, UpgradeStepStatus, step_status_name, unknown_step, check_config,
  seginstall, prepare_init_cluster, masterupgrade, stopped_cluster, prepare_start_agents,
  conversion, share_oids, validate_start_cluster, convert_primaries, reconfigure_ports,
  unknown_status, pending, running, complete, failed,
}
use gpupgrade.Cli.Reporter.{report_string, upgrade_steps_message}

-- The status by its first letter.
status_at : String → StepStatus
status_at String.[] = unknown_status
status_at (String.◌∷◌ c t) =
    if code c == 80
    then pending
    else if code c == 82
    then running
    else if code c == 67
    then complete
    else if code c == 70
    then failed
    else unknown_status

status_at-name : (s : StepStatus) (rest : String) → status_at (step_status_name s <> rest) ≡ s
unfolding status_at step_status_name
status_at-name unknown_status rest = ap status_at (cons-append "U" "NKNOWN_STATUS" rest)
status_at-name pending rest = ap status_at (cons-append "P" "ENDING" rest)
status_at-name running rest = ap status_at (cons-append "R" "UNNING" rest)
status_at-name complete rest = ap status_at (cons-append "C" "OMPLETE" rest)
status_at-name failed rest = ap status_at (cons-append "F" "AILED" rest)

step_in : List UpgradeSteps → String → UpgradeSteps
step_in [] message = unknown_step
step_in (s ∷ steps) message =
    let rest = step_in steps message in if upgrade_steps_message s == message then s else rest

abbrev steps : List UpgradeSteps
steps =
    check_config ∷ seginstall ∷ prepare_init_cluster ∷ masterupgrade ∷ stopped_cluster
    ∷ prepare_start_agents ∷ conversion ∷ share_oids ∷ validate_start_cluster ∷ convert_primaries
    ∷ reconfigure_ports ∷ []

step_in-message : (s : UpgradeSteps) → step_in steps (upgrade_steps_message s) ≡ s
unfolding step_in upgrade_steps_message
step_in-message unknown_step = refl
step_in-message check_config = refl
step_in-message seginstall = refl
step_in-message prepare_init_cluster = refl
step_in-message masterupgrade = refl
step_in-message stopped_cluster = refl
step_in-message prepare_start_agents = refl
step_in-message conversion = refl
step_in-message share_oids = refl
step_in-message validate_start_cluster = refl
step_in-message convert_primaries = refl
step_in-message reconfigure_ports = refl

-- Two statuses that are printed by the same line are the same step in the same status.
pub report_string-injective : (s t : UpgradeStepStatus) → report_string s ≡ report_string t → s ≡ t
unfolding report_string
report_string-injective s t h =
    let status : s.status ≡ t.status =
      sym (status_at-name s.status (" " <> upgrade_steps_message s.step))
      ∙ ap status_at h
      ∙ status_at-name t.status (" " <> upgrade_steps_message t.step) in
    let tails : (" " <> upgrade_steps_message s.step) ≡ (" " <> upgrade_steps_message t.step) =
      append_cancel_left (step_status_name s.status) _ _
        (h ∙ ap (λ x. step_status_name x <> (" " <> upgrade_steps_message t.step)) (sym status)) in
    let step : s.step ≡ t.step =
      sym (step_in-message s.step)
      ∙ ap (step_in steps) (append_cancel_left " " _ _ tails)
      ∙ step_in-message t.step in
    λ i. record { step = step i; status = status i }
