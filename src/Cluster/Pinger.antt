-- ===== src/Cluster/Pinger.antt =====
-- hub/services/hub_ping_agents.go and hub/configutils/rpc_clients.go: whether the agents answer.
pub mod Laws
use gpupgrade.Base.{ℕ, zero, suc, String, ℤ, Option, none, some, List, [], ◌∷◌, map, ◌<>◌}
use gpupgrade.System.{FilePath, Error, Result, ok, err, Sys, pure, ◌>>=◌}
use gpupgrade.Config.Segment.{Codec, MapOrder}
use gpupgrade.Config.Reader.{Reader, new_reader, of_old_cluster_config, get_hostnames}

-- `grpc.Dial`, on the target; and the call `PingAgents`, on how many pings went before, the host and
-- the connection. A client over a failed connection is still a client.
pub record AgentNet : Type 1 where
  pub Conn : Type 0
  pub dial : String → Conn × Option Error
  pub ping : ℕ → String → Conn → Option Error

module _ (net : AgentNet) where
  open net use {Conn, dial, ping}

  pub record ClientAndHostname : Type 0 where
    pub client : Conn
    pub hostname : String

  -- The loop of `GetClients`: an error of `Dial` is logged, and its client kept.
  abbrev client_of : String → ClientAndHostname
  client_of host = record { client = (dial (host <> ":6416")).0; hostname = host }

  abbrev clients_of : Result (List String) × Reader → Result (List ClientAndHostname)
  clients_of (err e, r) = err e
  clients_of (ok hosts, r) = ok (map client_of hosts)

  unfoldable pub get_clients : Codec → MapOrder → FilePath → Sys (Result (List ClientAndHostname))
  get_clients json order base_dir = do
    hosts ← get_hostnames json order (of_old_cluster_config base_dir new_reader)
    pure (clients_of hosts)

  pub record PingerManager : Type 0 where
    pub rpc_clients : List ClientAndHostname
    pub num_retries : ℕ

  abbrev manager_of : Result (List ClientAndHostname) → PingerManager
  manager_of (err e) = record { rpc_clients = []; num_retries = 0 }
  manager_of (ok clients) = record { rpc_clients = clients; num_retries = 10 }

  unfoldable pub new_pinger_manager : Codec → MapOrder → FilePath → Sys PingerManager
  unfolding get_clients
  new_pinger_manager json order base_dir = do
    clients ← get_clients json order base_dir
    pure (manager_of clients)

  -- `PingAllAgents`: the error, and how many pings there have been. The first error ends the round.
  unfoldable pub ping_all_agents : List ClientAndHostname → ℕ → Option Error × ℕ
  ping_all_agents [] pings = (none, pings)
  ping_all_agents (c ∷ clients) pings =
      let rest = ping_all_agents clients (suc pings) in
      elim (ping pings c.hostname c.client) [ none ↦ rest | some e ↦ (some e, suc pings) ]

  -- The loop `for i := 0; i < 10; i++` of `PingPollAgents`, on the rounds that are left and the error
  -- of the round before.
  unfoldable pub poll : ℕ → List ClientAndHostname → Option Error → ℕ → Option Error × ℕ
  unfolding ping_all_agents
  poll zero clients last pings = (last, pings)
  poll (suc rounds) clients last pings =
      let round = ping_all_agents clients pings in
      let rest = poll rounds clients round.0 round.1 in
      elim round.0 [ none ↦ (none, round.1) | some e ↦ rest ]

  unfoldable pub ping_poll_agents : PingerManager → ℕ → Option Error × ℕ
  unfolding poll
  ping_poll_agents agent pings = poll 10 agent.rpc_clients none pings
