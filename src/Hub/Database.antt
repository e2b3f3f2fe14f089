-- ===== src/Hub/Database.antt =====
-- db/db.go, and what the hub asks of a database through the dbconn library.
use gpupgrade.Base.{String, ℤ, pos, int_eq, Bool, Option, List, ◌==◌, string_eq, if◌then◌else◌}
use gpupgrade.System.{Error, Result}
use gpupgrade.Config.Segment.{Segment}

-- The environment of a process: its variables (an unset one is empty), its user and its host, and
-- `strconv.Atoi`, which gives 0 where it fails.
pub record Env : Type 0 where
  pub getenv : String → String
  pub username : String
  pub hostname : String
  pub atoi : String → ℤ

unfoldable pub try_env : Env → String → String → String
try_env env varname defval = let val = env.getenv varname in if val == "" then defval else val

pub record DbConn : Type 0 where
  pub user : String
  pub db_name : String
  pub host : String
  pub port : ℤ

unfoldable pub new_db_conn : Env → String → ℤ → String → DbConn
unfolding try_env
new_db_conn env master_host master_port dbname = record {
  user = try_env env "PGUSER" env.username;
  db_name = if dbname == "" then try_env env "PGDATABASE" "" else dbname;
  host = if master_host == "" then try_env env "PGHOST" env.hostname else master_host;
  port = if master_port == pos 0 then env.atoi (try_env env "PGPORT" "15432") else master_port;
}

-- The calls of dbconn: each is asked of a connection, and its answer is the database's.
pub record Database : Type 0 where
  pub connect : DbConn → Option Error
  pub version_before : DbConn → String → Bool
  pub version_at_least : DbConn → String → Bool
  pub select_segments : DbConn → String → Result (List Segment)
  pub select_names : DbConn → String → Result (List String)
  pub get_count : DbConn → String → Result ℤ
