-- ===== src/Tests/Cluster.antt =====
-- Commands on the hosts, and the pings of the agents.
use gpupgrade.Base.{
  ℕ, ◌≡◌, refl, false, ◌≤◌, String, none, some, List, [], ◌∷◌, arith, ltb, if◌then◌else◌,
}
use gpupgrade.System.{FilePath, dir, node_at, ◌/◌, plain, World, run_command, read_file}
use gpupgrade.Idl.{seginstall, prepare_start_agents, complete, failed}
use gpupgrade.Config.Reader.{get_hostnames, load, read, of_old_cluster_config}
use gpupgrade.Status.StateCheck.{get_status, reply}
use gpupgrade.Cluster.Ssher.{ssh_command, ssh_all, verify_software, start}
use gpupgrade.Cluster.Ssher.Laws.{ssher, ssh_errors}
use gpupgrade.Cluster.Ssher.Steps.{verify_software-status, start-status}
use gpupgrade.Checklist.Calm.{Exists}
use gpupgrade.Cluster.Pinger.{
  AgentNet, PingerManager, ping_poll_agents, get_clients, new_pinger_manager,
}
use gpupgrade.Cluster.Pinger.Laws.{ping_poll_agents-answered, new_pinger_manager-unread}
use gpupgrade.Tests.{tree, with_files, base, world, base-Exists, fails, codec, in_order}

abbrev hosts : List String
hosts = "mdw" ∷ "sdw1" ∷ []

verify_software-status_example :
    (get_status
      (record { path = base / "seginstall"; step = seginstall })
      (verify_software fails (ssher base "/usr/local/gpdb") hosts world).1).0
    ≡ reply seginstall failed
unfolding ssh_errors run_command
verify_software-status_example =
    verify_software-status fails base "/usr/local/gpdb" hosts world refl base-Exists
      (λ log c fs. refl)

start-status_example :
    (get_status
      (record { path = base / "start-agents"; step = prepare_start_agents })
      (start fails (ssher base "/usr/local/gpdb") hosts none world).1).0
    ≡ reply prepare_start_agents complete
start-status_example =
    start-status fails base "/usr/local/gpdb" hosts none world refl base-Exists (λ log c fs. refl)

ssh_all_tries :
    (ssh_all fails hosts ("ls" ∷ []) false world).1.commands
    ≡ ssh_command "sdw1" ("ls" ∷ []) ∷ ssh_command "mdw" ("ls" ∷ []) ∷ []
unfolding ssh_all run_command
ssh_all_tries = refl

-- Agents that answer from the fourth ping on, and agents that never do.
abbrev late : AgentNet
late = record {
  Conn = Unit {0};
  dial = λ target. (tt, none);
  ping = λ k host conn. if ltb k 3 then some (plain "connection refused") else none;
}

abbrev dead : AgentNet
dead = record {
  Conn = Unit {0};
  dial = λ target. (tt, none);
  ping = λ k host conn. some (plain "connection refused");
}

abbrev late_agents : PingerManager late
late_agents = record {
  rpc_clients =
      record { client = tt; hostname = "mdw" } ∷ record { client = tt; hostname = "sdw1" } ∷ [];
  num_retries = 10;
}

abbrev dead_agents : PingerManager dead
dead_agents = record {
  rpc_clients = record { client = tt; hostname = "mdw" } ∷ [];
  num_retries = 10;
}

late_answer : (k : ℕ) → 3 ≤ k → (if ltb k 3 then some (plain "connection refused") else none) ≡ none
late_answer k h = ground arith

ping_poll_agents-answered_example : (ping_poll_agents late late_agents 0).0 ≡ none
ping_poll_agents-answered_example =
    ping_poll_agents-answered late late_agents 3 0 (late_answer, (late_answer, tt)) (omega arith)

abbrev unreadable : World
unreadable = record world { faults = some (plain "permission denied") ∷ [] }

new_pinger_manager-unread_example :
    ping_poll_agents dead (new_pinger_manager dead codec in_order base unreadable).0 5 ≡ (none, 5)
unfolding get_clients get_hostnames load read read_file of_old_cluster_config
new_pinger_manager-unread_example =
    new_pinger_manager-unread dead codec in_order base unreadable (plain "permission denied") 5 refl

-- `gpstop` fails on the old cluster.
abbrev stop_dir : FilePath
stop_dir = base / "gpstop"

abbrev stopping_world : World
stopping_world = with_files ((stop_dir, dir) ∷ tree)

stop_dir-Exists : Exists stop_dir stopping_world.fs
unfolding node_at
stop_dir-Exists = (refl, (refl, (refl, (refl, tt))))
