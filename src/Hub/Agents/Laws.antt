-- ===== src/Hub/Agents/Laws.antt =====
-- hub/services/hub.go: the connections around a failed dial.
use mathlib.Core.List.{append_assoc, append-nil}
use gpupgrade.Base.{
  ℕ, String, ◌<>◌, ℤ, decimal, true, ◌≡◌, refl, ap, List, [], ◌∷◌, ◌++◌, map, arith, all, All,
}
use gpupgrade.System.{Error, ok, err, World}
use gpupgrade.Config.Segment.{Codec, MapOrder}
use gpupgrade.Config.Reader.{Reader, get_hostnames}
use gpupgrade.Hub.Agents.{Agents, Connection, ensure_ready, dial_all, agent_conns}

module _ (agents : Agents) (port : ℤ) where
  -- Each of these hosts can be dialled.
  abbrev pub Dials : List String → Type 0
  Dials hosts =
      All (λ h. (conn : agents.Conn) × (agents.dial (h <> (":" <> decimal port)) ≡ ok conn)) hosts

  -- The connections that the loop has made before it fails.
  dial_all-partial :
      (before after : List String) (host : String) (e : Error) (conns : List (Connection agents))
      → Dials before
      → agents.dial (host <> (":" <> decimal port)) ≡ err e
      → (made : List (Connection agents)) × (dial_all agents port (before ++ (host ∷ after)) conns
          ≡ (err e, conns ++ made))
        × (map (λ c. c.hostname) made ≡ before)
  unfolding dial_all
  dial_all-partial [] after host e conns dials bad = ([], ground (arith, append-nil conns), refl)
  dial_all-partial (h ∷ before) after host e conns ((conn, good), dials) bad =
      let c : Connection agents = record { conn = conn; hostname = h } in
      let (made, stops, names) =
        dial_all-partial before after host e (conns ++ (c ∷ [])) dials bad in
      (c ∷ made, ground (arith, append_assoc conns (c ∷ []) made), ap (λ l. h ∷ l) names)

  all_ready :
      ((i : ℕ) (c : agents.Conn) → agents.is_ready i c ≡ true)
      → (conns : List (Connection agents)) → all (λ c. agents.is_ready 0 c.conn) conns ≡ true
  all_ready ready [] = refl
  all_ready ready (c ∷ conns) = ground (arith, ready 0 c.conn, all_ready ready conns)

  -- If `AgentConns` reads the hosts and fails to dial one that is not the first, after dialling
  -- those before it, then it returns that error; and if every connection is ready, the next call
  -- succeeds, with the connections to the hosts before that one alone.
  pub agent_conns-partial :
      (json : Codec) (order : MapOrder) (r r' : Reader) (w w' : World) (b host : String)
      (before after : List String) (e : Error)
      → (get_hostnames json order r w).0.0 ≡ ok (b ∷ before ++ (host ∷ after))
      → Dials (b ∷ before)
      → agents.dial (host <> (":" <> decimal port)) ≡ err e
      → ((i : ℕ) (c : agents.Conn) → agents.is_ready i c ≡ true)
      → let first = (agent_conns agents json order port [] r w).0.0 in
        let second = (agent_conns agents json order port first.1 r' w').0.0 in
        (conns : List (Connection agents)) × (first.0 ≡ err e)
        × (second.0 ≡ ok conns)
        × (map (λ c. c.hostname) conns ≡ b ∷ before)
  unfolding agent_conns dial_all ensure_ready
  agent_conns-partial json order r r' w w' b host before after e found ((conn, good), dials) bad
        ready =
      let c : Connection agents = record { conn = conn; hostname = b } in
      let (made, stops, names) = dial_all-partial before after host e (c ∷ []) dials bad in
      (
        c ∷ made,
        rw (found, good, stops) refl,
        rw (found, good, stops) (rw (ready 0 conn, all_ready ready made) refl),
        ap (λ l. b ∷ l) names,
      )
