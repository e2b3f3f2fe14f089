-- ===== src/Hub/SaveConfig.antt =====
-- hub/services/hub_check_config.go, hub_prepare_init_cluster.go: how the configuration of the old and
-- of the new cluster is queried and kept; cli/commanders/preparer.go, `DoInit`: its first, empty form.
pub mod Laws
pub mod Keeps
pub mod Stored
use gpupgrade.Base.{
  String, ◌<>◌, ℤ, Bool, true, false, Option, none, some, List, [], ◌∷◌, if◌then◌else◌, ◌==◌,
  string_eq,
}
use gpupgrade.System.{
  FilePath, path_text, ◌/◌, Error, plain, not_exist, exist, database_connection, Result, ok, err,
  Sys, pure, ◌>>=◌, ◌>>◌, open_create, write_text, mkdir_one,
}
use gpupgrade.Config.Segment.{
  Segment, ClusterConfig, Codec, get_config_file_path, get_new_cluster_config_file_path,
}
use gpupgrade.Checklist.{
  new_checklist_manager, reset_state_dir, mark_in_progress, mark_failed, mark_complete,
}
use gpupgrade.Hub.Database.{Env, DbConn, new_db_conn, Database}

-- The two queries, with their line breaks as spaces; what they select is left to the database.
abbrev pub configquery5 : String
configquery5 =
    "SELECT s.content, s.hostname, e.fselocation as datadir, s.dbid, s.preferred_role, s.role, s.port FROM gp_segment_configuration s JOIN pg_filespace_entry e ON s.dbid = e.fsedbid JOIN pg_filespace f ON e.fsefsoid = f.oid WHERE s.role = 'p' AND f.fsname = 'pg_system' ORDER BY s.content;"

abbrev pub configquery6 : String
configquery6 =
    "SELECT content, hostname, datadir, dbid, preferred_role, role, port FROM gp_segment_configuration WHERE role = 'p' ORDER BY content;"

-- The error that is returned for one of a call. The text of the error within is left out.
abbrev pub reported : String → Option Error → Option Error
reported message none = none
reported message (some e) = some (plain message)

-- Going on where a file was opened.
abbrev pub if_opened : String → Option Error → Sys (Option Error) → Sys (Option Error)
if_opened message none rest = rest
if_opened message (some e) rest = pure (some (plain message))

-- `SaveQueryResultToJSON`, on the file that was opened.
written : Result String → FilePath → Sys (Option Error)
written (err e) path = pure (some (plain "Unable to marshal query results to JSON."))
written (ok text) path = do
  failure ← write_text path text
  pure (reported "Unable to write query results to file." failure)

unfoldable pub save_query_result_to_json : Codec → ClusterConfig → FilePath → Sys (Option Error)
unfolding written
save_query_result_to_json json c path = written (json.marshal c) path

module _ (json : Codec) (db : Database) where
  abbrev pub config_query : DbConn → String
  config_query conn = if db.version_before conn "6" then configquery5 else configquery6

  save_segments : Result (List Segment) → FilePath → String → Sys (Option Error)
  save_segments (err e) path bin_dir = pure (some (plain "Unable to execute query."))
  save_segments (ok segments) path bin_dir =
      save_query_result_to_json json (record { seg_config = segments; bin_dir = bin_dir }) path

  unfoldable pub save_old_cluster_config : DbConn → FilePath → String → Sys (Option Error)
  unfolding save_segments save_query_result_to_json
  save_old_cluster_config conn state_dir old_bin_dir = do
    let config_file = get_config_file_path state_dir
    opened ← open_create config_file
    if_opened "Unable to write to config file." opened
        (save_segments (db.select_segments conn (config_query conn)) config_file old_bin_dir)

  unfoldable pub save_target_cluster_config : DbConn → FilePath → String → Sys (Option Error)
  unfolding save_segments save_query_result_to_json
  save_target_cluster_config conn state_dir new_bin_dir = do
    let config_file = get_new_cluster_config_file_path state_dir
    opened ← open_create config_file
    if_opened "Could not open new config file for writing." opened
        (save_segments (db.select_segments conn (config_query conn)) config_file new_bin_dir)

  abbrev pub connection : Env → ℤ → DbConn
  connection env port = new_db_conn env "localhost" port "template1"

  -- The end of `CheckConfig`: what the checklist returns is only logged.
  unfoldable pub conclude : FilePath → Option Error → Sys (Result String)
  conclude state_dir (some e) = do
    mark_failed (new_checklist_manager state_dir) "check-config"
    pure (err e)
  conclude state_dir none = do
    mark_complete (new_checklist_manager state_dir) "check-config"
    pure (ok "All good")

  -- From the connection on.
  unfoldable pub connected : Env → FilePath → ℤ → String → Option Error → Sys (Result String)
  unfolding save_old_cluster_config conclude
  connected env state_dir port old_bin_dir (some e) =
      conclude state_dir (some (database_connection e))
  connected env state_dir port old_bin_dir none = do
    saved ← save_old_cluster_config (connection env port) state_dir old_bin_dir
    conclude state_dir saved

  -- `CheckConfig`: the reply's text, or the error.
  unfoldable pub check_config : Env → FilePath → ℤ → String → Sys (Result String)
  unfolding connected
  check_config env state_dir port old_bin_dir = do
    reset_state_dir (new_checklist_manager state_dir) "check-config"
    mark_in_progress (new_checklist_manager state_dir) "check-config"
    connected env state_dir port old_bin_dir (db.connect (connection env port))

  -- `PrepareInitCluster`
  unfoldable pub prepare_init_cluster : Env → FilePath → ℤ → String → Sys (Option Error)
  unfolding save_target_cluster_config
  prepare_init_cluster env state_dir port new_bin_dir = elim (db.connect (connection env port)) [
    | some e ↦ pure (some (database_connection e))
    | none ↦ save_target_cluster_config (connection env port) state_dir new_bin_dir
  ]

-- The error of `os.Mkdir`, by which `DoInit` tells a directory that is there already.
abbrev init_error : Error → Error
init_error exist =
    plain "gpupgrade state dir already exists. Did you already run gpupgrade prepare init?"
init_error e = e

-- `DoInit` of the command line: a new state directory, with a configuration of no segment.
unfoldable pub do_init : Codec → FilePath → String → Sys (Option Error)
unfolding save_query_result_to_json
do_init json state_dir old_bin_dir = do
  made ← mkdir_one state_dir
  elim made [
    | some e ↦ pure (some (init_error e))
    | none ↦ do
      opened ← open_create (get_config_file_path state_dir)
      if_opened "Unable to write to config file." opened (
          save_query_result_to_json json (record { seg_config = []; bin_dir = old_bin_dir })
            (get_config_file_path state_dir))
  ]
