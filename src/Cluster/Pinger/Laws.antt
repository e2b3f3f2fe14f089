-- ===== src/Cluster/Pinger/Laws.antt =====
-- hub/services/hub_ping_agents.go: the outcome and the number of the pings.
use gpupgrade.Base.{
  ℕ, zero, suc, ◌+◌, ◌*◌, ◌≤◌, ◌<◌, ◌≡◌, refl, ◌≢◌, ◌⊎◌, Option, none, List, [], ◌∷◌, arith, length,
  All, Option-cases, inl, inr,
}
use gpupgrade.System.{FilePath, Error, err, World}
use gpupgrade.Config.Segment.{Codec, MapOrder}
use gpupgrade.Cluster.Pinger.{
  AgentNet, ClientAndHostname, ping_all_agents, poll, PingerManager, ping_poll_agents, get_clients,
  new_pinger_manager,
}

module _ (net : AgentNet) where
  open net use {Conn, ping}

  abbrev Clients : Type 0
  Clients = List (ClientAndHostname net)

  -- From some ping on, every agent answers.
  abbrev pub AnswersFrom : ℕ → Clients → Type 0
  AnswersFrom n clients = All (λ c. (k : ℕ) → n ≤ k → ping k c.hostname c.client ≡ none) clients

  -- Some agent never answers.
  abbrev pub Silent : Clients → Type 0
  Silent [] = ⊥
  Silent (c ∷ clients) = ((k : ℕ) → ping k c.hostname c.client ≢ none) ⊎ Silent clients

  ping_all_bounds :
      (clients : Clients) (n : ℕ)
      → (n ≤ (ping_all_agents net clients n).1)
        × ((ping_all_agents net clients n).1 ≤ n + length clients)
        × ((ping_all_agents net clients n).0 ≢ none → n < (ping_all_agents net clients n).1)
  unfolding ping_all_agents
  ping_all_bounds [] n = ground arith
  ping_all_bounds (c ∷ clients) n = ground (arith, ping_all_bounds clients (suc n))

  ping_all_answered :
      (clients : Clients) (n m : ℕ)
      → AnswersFrom n clients
      → n ≤ m
      → (ping_all_agents net clients m).0 ≡ none
  unfolding ping_all_agents
  ping_all_answered [] n m h le = refl
  ping_all_answered (c ∷ clients) n m (answers, h) le =
      ground (arith, answers m le, ping_all_answered clients n (suc m) h)

  poll_answered :
      (rounds : ℕ) (clients : Clients) (last : Option Error) (n m : ℕ)
      → AnswersFrom n clients
      → n ≤ m + rounds
      → (poll net (suc rounds) clients last m).0 ≡ none
  unfolding poll
  poll_answered zero clients last n m h le =
      ground (arith, ping_all_answered clients n m h (omega arith))
  poll_answered (suc rounds) clients last n m h le =
      let round = ping_all_agents net clients m in
      elim (Option-cases round.0) [
        | inl answered ↦ ground arith
        | inr (e, failure) ↦
            let later : m < round.1 = ground (arith, (ping_all_bounds clients m).2) in
            rw (failure, poll) (poll_answered rounds clients round.0 n round.1 h (omega arith))
      ]

  poll-le :
      (rounds : ℕ) (clients : Clients) (last : Option Error) (m : ℕ)
      → (poll net rounds clients last m).1 ≤ m + rounds * length clients
  unfolding poll
  poll-le zero clients last m = omega arith
  poll-le (suc rounds) clients last m =
      let round = ping_all_agents net clients m in
      grind (arith, ping_all_bounds clients m, poll-le rounds clients round.0 round.1)

  -- If every agent answers all pings from some ping on, at most nine pings after the present one,
  -- then polling succeeds.
  pub ping_poll_agents-answered :
      (agent : PingerManager net) (n m : ℕ)
      → AnswersFrom n agent.rpc_clients
      → n ≤ m + 9
      → (ping_poll_agents net agent m).0 ≡ none
  unfolding ping_poll_agents
  ping_poll_agents-answered agent n m h le = poll_answered 9 agent.rpc_clients none n m h le

  Silent-round :
      (clients : Clients) (m : ℕ) → Silent clients → (ping_all_agents net clients m).0 ≢ none
  unfolding ping_all_agents
  Silent-round [] m h = absurd h
  Silent-round (c ∷ clients) m (inl h) = ground (arith, h m)
  Silent-round (c ∷ clients) m (inr h) = ground (arith, Silent-round clients (suc m) h)

  poll-Silent :
      (rounds : ℕ) (clients : Clients) (last : Option Error) (m : ℕ)
      → Silent clients
      → (poll net (suc rounds) clients last m).0 ≢ none
  unfolding poll
  poll-Silent zero clients last m h = ground (arith, Silent-round clients m h)
  poll-Silent (suc rounds) clients last m h =
      let round = ping_all_agents net clients m in
      ground (arith, Silent-round clients m h, poll-Silent rounds clients round.0 round.1 h)

  -- If some agent never answers, polling fails, after at most ten times as many pings as there are
  -- agents.
  ping_poll_agents-Silent :
      (agent : PingerManager net) (m : ℕ)
      → Silent agent.rpc_clients
      → ((ping_poll_agents net agent m).0 ≢ none)
        × ((ping_poll_agents net agent m).1 ≤ m + 10 * length agent.rpc_clients)
  unfolding ping_poll_agents
  ping_poll_agents-Silent agent m h =
      (poll-Silent 9 agent.rpc_clients none m h, poll-le 10 agent.rpc_clients none m)

  -- If the hosts cannot be read when the hub makes its pinger, polling with that pinger succeeds
  -- without a ping.
  pub new_pinger_manager-unread :
      (json : Codec) (order : MapOrder) (base : FilePath) (w : World) (e : Error) (m : ℕ)
      → (get_clients net json order base w).0 ≡ err e
      → ping_poll_agents net (new_pinger_manager net json order base w).0 m ≡ (none, m)
  unfolding new_pinger_manager ping_poll_agents
  new_pinger_manager-unread json order base w e m h = ground arith
