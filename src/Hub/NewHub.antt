-- ===== src/Hub/NewHub.antt =====
-- hub/services/hub.go, `NewHub`, with the ports that hub/gpupgrade_hub_main.go and
-- agent/gpupgrade_agent_main.go fix.
use gpupgrade.Base.{String, ℤ, pos, List, []}
use gpupgrade.System.{FilePath}
use gpupgrade.Config.Reader.{Reader, of_old_cluster_config}
use gpupgrade.Hub.Agents.{Agents, Connection}

pub record HubConfig : Type 0 where
  pub cli_to_hub_port : ℤ
  pub hub_to_agent_port : ℤ
  pub state_dir : FilePath
  pub log_dir : String

-- The configuration of `gpupgrade_hub`.
unfoldable pub hub_config : FilePath → String → HubConfig
hub_config state_dir log_dir = record {
  cli_to_hub_port = pos 7527;
  hub_to_agent_port = pos 6416;
  state_dir = state_dir;
  log_dir = log_dir;
}

pub record AgentConfig : Type 0 where
  pub port : ℤ
  pub state_dir : FilePath

-- The configuration of `gpupgrade_agent`.
unfoldable pub agent_config : FilePath → AgentConfig
agent_config state_dir = record { port = pos 6416; state_dir = state_dir }

module _ (agents : Agents) where
  -- What a hub keeps between requests, its server apart.
  pub record Hub : Type 0 where
    pub conf : HubConfig
    pub connections : List (Connection agents)
    pub configreader : Reader

  unfoldable pub new_hub : Reader → HubConfig → Hub
  new_hub configreader conf = record {
    conf = conf;
    connections = [];
    configreader = of_old_cluster_config conf.state_dir configreader;
  }
