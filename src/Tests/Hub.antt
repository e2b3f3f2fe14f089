-- ===== src/Tests/Hub.antt =====
-- What the hub leaves behind on its requests.
use gpupgrade.Base.{
  ◌≡◌, refl, ◌≢◌, String, pos, decimal, Bool, true, false, none, some, List, [], ◌∷◌, map, arith,
  contains_text, has_prefix, ◌==◌, string_eq, list_eq,
}
use gpupgrade.System.{
  ◌/◌, file, node_at, World, plain, Result, ok, err, run_command, create_file, read_content,
}
use gpupgrade.Idl.{
  share_oids, validate_start_cluster, reconfigure_ports, complete, running, failed, DataDirPair,
  check_config as check_config_step,
}
use gpupgrade.Config.Segment.{Segment, ClusterConfig, Codec}
use gpupgrade.Config.Reader.{
  Reader, new_reader, of_old_cluster_config, of_new_cluster_config, read, load, get_hostnames,
  get_port_for_segment, hostnames_seen,
}
use gpupgrade.Status.StateCheck.{StateCheck, get_status, reply}
use gpupgrade.Cluster.Pair.{empty_pair}
use gpupgrade.Hub.Database.{Env, DbConn, Database}
use gpupgrade.Hub.SaveConfig.{save_old_cluster_config, check_config}
use gpupgrade.Hub.SaveConfig.Laws.{check_config-status}
use gpupgrade.Hub.SaveConfig.Stored.{save_old-read, save_old-tail}
use gpupgrade.Hub.Steps.{share_oid_files, start_new_cluster, upgrade_reconfigure_ports}
use gpupgrade.Hub.Steps.Laws.{start_new_cluster-status, reconfigure_ports-status}
use gpupgrade.Hub.Steps.ShareOids.{share_oid_files-status}
use gpupgrade.Hub.Convert.{get_master_ports, get_data_dir_pairs}
use gpupgrade.Hub.Convert.Laws.{AllItself, get_master_ports-equal, get_data_dir_pairs-itself}
use gpupgrade.Hub.Agents.{Agents, Connection, agent_conns}
use gpupgrade.Hub.Agents.Laws.{agent_conns-partial}
use gpupgrade.Hub.StatusUpgrade.{primaries_status}
use gpupgrade.Hub.StatusUpgrade.Laws.{primaries_status-lines}
use gpupgrade.Tests.{
  base, tree, world, with_files, base-Exists, succeeds, fails, codec, in_order, as_listed, config,
  segment, primary,
}

abbrev check_of : String → StateCheck
check_of name = record { path = base / name; step = share_oids }

abbrev pub env : Env
env = record {
  getenv = λ name. "";
  username = "gpadmin";
  hostname = "mdw";
  atoi = λ text. pos 15432;
}

abbrev pub database : List Segment → Database
database segments = record {
  connect = λ conn. none;
  version_before = λ conn version. true;
  version_at_least = λ conn version. false;
  select_segments = λ conn query. ok segments;
  select_names = λ conn query. ok [];
  get_count = λ conn query. ok (pos 0);
}

-- A database that cannot be reached.
abbrev no_database : Database
no_database = record (database []) { connect = λ conn. some (plain "connection refused") }

check_config-status_example :
    (get_status
      (record { path = base / "check-config"; step = check_config_step })
      (check_config codec no_database env base (pos 5432) "/old/bin" world).1).0
    ≡ reply check_config_step failed
unfolding check_config
check_config-status_example =
    check_config-status codec no_database env base (pos 5432) "/old/bin" world refl base-Exists

share_oid_files-status_example :
    (get_status
      (record { path = base / "share-oids"; step = share_oids })
      (share_oid_files fails codec in_order base
        (record new_reader { config = config.seg_config })
        world).1).0
    ≡ reply share_oids failed
unfolding get_hostnames load hostnames_seen
share_oid_files-status_example =
    share_oid_files-status fails base (λ log c fs. refl) (λ h. true) (λ h log fs. refl) codec
      in_order (record new_reader { config = config.seg_config }) world refl base-Exists

start_new_cluster-status_example :
    (get_status
      (record { path = base / "validate-start-cluster"; step = validate_start_cluster })
      (start_new_cluster succeeds "/py" base "/new/bin" "/new/data" world).1).0
    ≡ reply validate_start_cluster complete
unfolding run_command
start_new_cluster-status_example =
    start_new_cluster-status succeeds base "/py" "/new/bin" "/new/data" world refl base-Exists
      (λ log c fs. refl)

reconfigure_ports-status_example :
    (get_status
      (record { path = base / "reconfigure-ports"; step = reconfigure_ports })
      (upgrade_reconfigure_ports fails base empty_pair world).1).0
    ≡ reply reconfigure_ports failed
unfolding upgrade_reconfigure_ports run_command
reconfigure_ports-status_example =
    reconfigure_ports-status fails base empty_pair world refl base-Exists (λ log c fs. refl)

abbrev conn : DbConn
conn = record { user = "gpadmin"; db_name = "template1"; host = "localhost"; port = pos 5432 }

-- A codec for the configurations without a segment: the text is the directory.
abbrev encoded : List Segment → String → Result String
encoded [] bin = ok bin
encoded (s ∷ segments) bin = err (plain "a segment")

abbrev bin_codec : Codec
bin_codec = record {
  marshal = λ c. encoded c.seg_config c.bin_dir;
  unmarshal = λ text. ok (record { seg_config = []; bin_dir = text });
}

encoded-decodes :
    (l : List Segment) (bin t : String)
    → encoded l bin ≡ ok t
    → bin_codec.unmarshal t ≡ ok (record { seg_config = l; bin_dir = bin })
encoded-decodes [] bin t h = ground arith
encoded-decodes (s ∷ segments) bin t h = absurd (ground arith)

bin_codec-decodes :
    (c : ClusterConfig) (t : String) → bin_codec.marshal c ≡ ok t → bin_codec.unmarshal t ≡ ok c
bin_codec-decodes c t h = encoded-decodes c.seg_config c.bin_dir t h

save_old-read_example :
    let saved = save_old_cluster_config bin_codec (database []) conn base "/old/bin" world in
    let (r, w') = read bin_codec (of_old_cluster_config base new_reader) saved.1 in
    (r.0 ≡ none) × (r.1.config ≡ []) × (r.1.bin_dir ≡ "/old/bin") × (saved.0 ≡ none)
unfolding node_at create_file
save_old-read_example =
    save_old-read bin_codec (database []) conn base "/old/bin" world refl [] "/old/bin" refl refl
      bin_codec-decodes refl (omega arith)

-- A longer configuration was saved before.
abbrev saved_before : World
saved_before = with_files ((base / "cluster_config.json", file "/a/longer/old/bin" 3) ∷ tree)

save_old-tail_example :
    let saved = save_old_cluster_config bin_codec (database []) conn base "/old/bin" saved_before in
    (saved.0 ≡ none) × (read_content (base / "cluster_config.json") saved.1.fs ≢ ok "/old/bin")
unfolding node_at create_file
save_old-tail_example =
    save_old-tail bin_codec (database []) conn base "/old/bin" saved_before refl [] "/old/bin" refl
      refl refl (omega arith)

-- A hub whose reader was set to the old configuration when it started.
abbrev hub_reader : Reader
hub_reader = record new_reader { config = config.seg_config; is_initialized = true }

get_master_ports-equal_example : pos 15432 ≡ pos 15432
unfolding get_master_ports get_port_for_segment load of_old_cluster_config of_new_cluster_config
get_master_ports-equal_example =
    get_master_ports-equal codec base hub_reader world (pos 15432) (pos 15432) refl

get_data_dir_pairs-itself_example :
    (pairs : List (String × List DataDirPair)) × ((get_data_dir_pairs codec as_listed base
        hub_reader world).0.0
      ≡ ok pairs)
    × AllItself pairs
get_data_dir_pairs-itself_example = get_data_dir_pairs-itself codec as_listed base hub_reader world

-- The host sdw1 cannot be dialled.
abbrev dial_one : Bool → Result (Unit {0})
dial_one true = err (plain "no route to host")
dial_one false = ok tt

abbrev net : Agents
net = record {
  Conn = Unit {0};
  dial = λ target. dial_one (target == "sdw1:6416");
  is_ready = λ i conn. true;
  check_conversion = λ conn host segments. ok [];
  convert_primaries = λ conn q. none;
}

abbrev dialled_reader : Reader
dialled_reader = record hub_reader { config = primary ∷ segment "mdw" ∷ [] }

agent_conns-partial_example :
    let first = (agent_conns net codec in_order (pos 6416) [] dialled_reader world).0.0 in
    let second = (agent_conns net codec in_order (pos 6416) first.1 dialled_reader world).0.0 in
    (conns : List (Connection net)) × (first.0 ≡ err (plain "no route to host"))
    × (second.0 ≡ ok conns)
    × (map (λ c. c.hostname) conns ≡ "mdw" ∷ [])
unfolding get_hostnames load decimal
agent_conns-partial_example =
    agent_conns-partial net (pos 6416) codec in_order dialled_reader dialled_reader world world
      "mdw" "sdw1" [] [] (plain "no route to host") refl ((tt, refl), tt) refl (λ i c. refl)

primaries_status-lines_example :
    primaries_status (
      "RUNNING - DBID 2 - CONTENT ID 0 - PRIMARY - sdw1"
      ∷ "COMPLETE - DBID 3 - CONTENT ID 1 - PRIMARY - sdw2" ∷ [])
    ≡ running
unfolding contains_text has_prefix
primaries_status-lines_example = primaries_status-lines (
    "RUNNING - DBID 2 - CONTENT ID 0 - PRIMARY - sdw1"
    ∷ "COMPLETE - DBID 3 - CONTENT ID 1 - PRIMARY - sdw2" ∷ [])
