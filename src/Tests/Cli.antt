-- ===== src/Tests/Cli.antt =====
-- The command line.
use gpupgrade.Base.{ℕ, ◌≤◌, ◌<◌, ◌≡◌, refl, ◌≢◌, pos, none, some, ltb, if◌then◌else◌}
use gpupgrade.System.{plain, ok, run_command}
use gpupgrade.Idl.{UpgradeStepStatus, seginstall, complete}
use gpupgrade.Cli.Preparer.{Pings, verify_connectivity, count_command, hub_command, start_hub}
use gpupgrade.Cli.Preparer.Laws.{verify_connectivity-pings, start_hub-once}
use gpupgrade.Cli.Reporter.Laws.{report_string-injective}
use gpupgrade.Tests.{world, fails}

-- A hub that answers from the fourth ping on.
abbrev late : Pings
late k = if ltb k 3 then some (plain "connection refused") else none

verify_connectivity-pings_example :
    ((verify_connectivity late).1 ≤ 101)
    × ((k : ℕ) → k < 101 → late k ≡ none → (verify_connectivity late).0 ≡ none)
    × (((k : ℕ) → k < 101 → late k ≢ none) → (verify_connectivity late).0 ≢ none)
verify_connectivity-pings_example = verify_connectivity-pings late

connected_late : verify_connectivity late ≡ (none, 4)
unfolding verify_connectivity
connected_late = refl

abbrev no_hub : ℕ
no_hub = 0

-- `grep` finds nothing, and exits with an error.
start_hub-once_example :
    (no_hub ≢ 0
      → ((start_hub fails (λ text. ok (pos 0)) world).0 ≢ none)
        × ((start_hub fails (λ text. ok (pos 0)) world).1
            ≡ (run_command fails count_command world).1))
    × (no_hub ≡ 0
        → start_hub fails (λ text. ok (pos 0)) world ≡ (
            let r = run_command fails hub_command (run_command fails count_command world).1 in
            (r.0.error, r.1)))
start_hub-once_example = start_hub-once fails (λ text. ok (pos 0)) world no_hub refl

abbrev installed : UpgradeStepStatus
installed = record { step = seginstall; status = complete }

report_string-injective_example : installed ≡ installed
report_string-injective_example = report_string-injective installed installed refl
