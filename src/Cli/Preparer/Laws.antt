-- ===== src/Cli/Preparer/Laws.antt =====
-- cli/commanders/preparer.go: the wait for the hub, and its start.
use gpupgrade.Base.{
  ℕ, zero, suc, ◌+◌, ◌≤◌, ◌<◌, String, ℤ, pos, ◌≡◌, refl, ◌≢◌, Option, none, some, arith,
  Option-cases, inl, inr,
}
use gpupgrade.System.{Error, Result, ok, World, Execer, run_command}
use gpupgrade.Cli.Preparer.{
  Pings, retry, verify_connectivity, count_command, hub_command, how_many_hubs_running, start_hub,
  start_unless, kick_off,
}

module _ (ping : Pings) where
  retry-bound :
      (attempts : ℕ) (e : Option Error) (pings : ℕ)
      → (retry ping attempts e pings).1 ≤ pings + attempts
  unfolding retry
  retry-bound attempts none pings = omega arith
  retry-bound zero (some e) pings = omega arith
  retry-bound (suc attempts) (some e) pings =
      omega (arith, retry-bound attempts (ping pings) (suc pings))

  retry-answered :
      (attempts : ℕ) (e : Option Error) (pings k : ℕ)
      → pings ≤ k
      → k < pings + attempts
      → ping k ≡ none
      → (retry ping attempts e pings).0 ≡ none
  unfolding retry
  retry-answered attempts none pings k h l answer = refl
  retry-answered zero (some e) pings k h l answer = absurd (omega arith)
  retry-answered (suc attempts) (some e) pings k h l answer = elim (Option-cases (ping pings)) [
    | inl first ↦ rw (first, retry) refl
    | inr (e', failure) ↦
        let later : suc pings ≤ k = grind arith in
        retry-answered attempts (ping pings) (suc pings) k later (omega arith) answer
  ]

  retry-unanswered :
      (attempts : ℕ) (e : Error) (pings : ℕ)
      → ((k : ℕ) → pings ≤ k → k < pings + attempts → ping k ≢ none)
      → (retry ping attempts (some e) pings).0 ≢ none
  unfolding retry
  retry-unanswered zero e pings h = λ q. cc
  retry-unanswered (suc attempts) e pings h = elim (Option-cases (ping pings)) [
    | inl answer ↦ absurd (h pings (omega arith) (omega arith) answer)
    | inr (e', failure) ↦
        rw failure
          (retry-unanswered attempts e' (suc pings) (λ k l m. h k (omega arith) (omega arith)))
  ]

  -- `VerifyConnectivity` makes at most 101 pings, and it succeeds exactly if one of the first 101 would
  -- be answered.
  pub verify_connectivity-pings :
      ((verify_connectivity ping).1 ≤ 101)
      × ((k : ℕ) → k < 101 → ping k ≡ none → (verify_connectivity ping).0 ≡ none)
      × (((k : ℕ) → k < 101 → ping k ≢ none) → (verify_connectivity ping).0 ≢ none)
  unfolding verify_connectivity retry
  verify_connectivity-pings = (
    retry-bound 100 (ping 0) 1,
    λ k l answer. elim (Option-cases (ping 0)) [
      | inl first ↦ rw (first, retry) refl
      | inr (e, failure) ↦
          let later : 1 ≤ k = grind arith in
          retry-answered 100 (ping 0) 1 k later (omega arith) answer
    ],
    λ h. elim (Option-cases (ping 0)) [
      | inl first ↦ absurd (h 0 (omega arith) first)
      | inr (e, failure) ↦ rw failure (retry-unanswered 100 e 1 (λ k l m. h k (omega arith)))
    ],
  )

module _ (exec : Execer) (parsed : String → Result ℤ) where
  -- If the count of hubs can be read and is a number above 0, then `StartHub` fails and runs nothing
  -- but the count; if it is 0, whatever the exit of the command that counts, `StartHub` runs the hub.
  pub start_hub-once :
      (w : World) (n : ℕ)
      → let counting = run_command exec count_command w in
        parsed counting.0.text ≡ ok (pos n)
        → (n ≢ 0
            → ((start_hub exec parsed w).0 ≢ none) × ((start_hub exec parsed w).1 ≡ counting.1))
          × (n ≡ 0
              → start_hub exec parsed w
                ≡ (let r = run_command exec hub_command counting.1 in (r.0.error, r.1)))
  unfolding start_hub how_many_hubs_running start_unless kick_off
  start_hub-once w zero h = (λ ne. absurd (ne refl), λ e. rw h refl)
  start_hub-once w (suc n) h = (λ ne. (rw h (λ q. cc), rw h refl), λ e. absurd (omega (arith, e)))
