-- ===== src/Cli/Preparer.antt =====
-- cli/commanders/preparer.go; its `DoInit` is in Hub.SaveConfig.
pub mod Laws
use gpupgrade.Base.{
  ℕ, zero, suc, String, ℤ, pos, negsuc, minus_one, Bool, true, false, Option, none, some, List, [],
  ◌∷◌, ltb, if◌then◌else◌,
}
use gpupgrade.System.{
  Error, plain, Result, ok, err, Sys, pure, ◌>>=◌, Execer, Cmd, Outcome, output, start, run_command,
}

-- The `Ping` of the hub, on how many pings went before.
abbrev pub Pings : Type 0
Pings = ℕ → Option Error

-- `for i := 0; i < NumberOfConnectionAttempt && err != nil; i++`, on the attempts that are left, the
-- error so far and the pings made; the result has both.
unfoldable pub retry : Pings → ℕ → Option Error → ℕ → Option Error × ℕ
retry ping attempts none pings = (none, pings)
retry ping zero (some e) pings = (some e, pings)
retry ping (suc attempts) (some e) pings = retry ping attempts (ping pings) (suc pings)

-- `VerifyConnectivity`, where `NumberOfConnectionAttempt` is 100.
unfoldable pub verify_connectivity : Pings → Option Error × ℕ
unfolding retry
verify_connectivity ping = retry ping 100 (ping 0) 1

abbrev pub count_command : Cmd
count_command = record {
  mode = output;
  name = "bash";
  args = "-c" ∷ "ps -ef | grep -Gc \"[g]pupgrade_hub$\"" ∷ [];
}

abbrev pub hub_command : Cmd
hub_command = record { mode = start; name = "gpupgrade_hub"; args = [] }

abbrev is_negative : ℤ → Bool
is_negative (pos n) = false
is_negative (negsuc n) = true

-- The count or the error, as Go returns the two; `parsed` is `strconv.Atoi(strings.TrimSpace(…))`.
abbrev counted : Result ℤ → Option Error → ℤ × Option Error
counted (err e) none = (minus_one, some e)
counted (err e) (some e') = (minus_one, some e')
counted (ok value) failure = if is_negative value then (minus_one, failure) else (value, none)

module _ (exec : Execer) (parsed : String → Result ℤ) where
  -- `HowManyHubsRunning`
  unfoldable pub how_many_hubs_running : Sys (ℤ × Option Error)
  how_many_hubs_running = do
    outcome ← run_command exec count_command
    pure (counted (parsed outcome.text) outcome.error)

  abbrev at_least_one : ℤ → Bool
  at_least_one (pos zero) = false
  at_least_one (pos (suc n)) = true
  at_least_one (negsuc n) = false

  kick_off : Sys (Option Error)
  kick_off = do outcome ← run_command exec hub_command; pure outcome.error

  start_unless : ℤ × Option Error → Sys (Option Error)
  unfolding kick_off
  start_unless (count, some e) = pure (some e)
  start_unless (count, none) =
      if at_least_one count
      then pure (some (plain "gpupgrade_hub process already running"))
      else kick_off

  -- `StartHub`
  unfoldable pub start_hub : Sys (Option Error)
  unfolding how_many_hubs_running start_unless
  start_hub = do hubs ← how_many_hubs_running; start_unless hubs
