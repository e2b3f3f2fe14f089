-- ===== src/Hub/Checks.antt =====
-- hub/services/hub_check_version.go, hub_check_object_count.go, hub_check_disk_space.go.
pub mod Laws
use gpupgrade.Base.{
  String, ◌<>◌, ℤ, Bool, true, false, Option, none, some, List, [], ◌∷◌, ◌++◌, if◌then◌else◌,
  decimal,
}
use gpupgrade.System.{
  FilePath, Error, plain, database_connection, Result, ok, err, Sys, pure, ◌>>=◌,
}
use gpupgrade.Config.Segment.{Codec, MapOrder}
use gpupgrade.Config.Reader.{new_reader, of_old_cluster_config, get_hostnames}
use gpupgrade.Hub.Database.{Env, DbConn, new_db_conn, Database}

-- What a handler comes to: a reply, an error, or a panic.
pub data Answer (A : Type 0) : Type 0 where
  replied : A → Answer A
  refused : Error → Answer A
  panicked : Answer A

pub record CountPerDb : Type 0 where
  pub db_name : String
  pub ao_count : ℤ
  pub heap_count : ℤ

module _ (db : Database) (env : Env) where
  -- `CheckVersion`
  unfoldable pub check_version : String → ℤ → Result Bool
  check_version host port =
      let conn = new_db_conn env host port "template1" in
      elim (db.connect conn) [
        | some e ↦ err (database_connection e)
        | none ↦ ok (db.version_at_least conn "4.3.9")
      ]

  -- The second query, once the first has given a count.
  abbrev heap_after : ℤ → Result ℤ → Result (ℤ × ℤ)
  heap_after ao (err e) = err e
  heap_after ao (ok heap) = ok (ao, heap)

  abbrev counts_after : DbConn → Result ℤ → Result (ℤ × ℤ)
  counts_after conn (err e) = err e
  counts_after conn (ok ao) = heap_after ao (db.get_count conn "HEAP_TABLE_QUERY_COUNT")

  -- `GetCountsForDb`, the queries by their names.
  unfoldable pub get_counts_for_db : DbConn → Result (ℤ × ℤ)
  get_counts_for_db conn = counts_after conn (db.get_count conn "AO_CO_TABLE_QUERY_COUNT")

  abbrev pub conn_to : ℤ → String → DbConn
  conn_to port name = new_db_conn env "localhost" port name

  -- The loop over the databases. Where the counts fail, the handler logs the error of the connection,
  -- which is nil, and so panics.
  unfoldable pub count_all : ℤ → List String → List CountPerDb → Answer (List CountPerDb)
  unfolding get_counts_for_db
  count_all port [] results = replied results
  count_all port (name ∷ names) results = elim (db.connect (conn_to port name)) [
    | some e ↦ refused e
    | none ↦ elim (get_counts_for_db (conn_to port name)) [
      | err e ↦ panicked
      | ok (ao, heap) ↦
          count_all port names
            (results ++ (record { db_name = name; ao_count = ao; heap_count = heap } ∷ []))
    ]
  ]

  -- `CheckObjectCount`
  unfoldable pub check_object_count : ℤ → Answer (List CountPerDb)
  unfolding count_all
  check_object_count port = elim (db.connect (conn_to port "template1")) [
    | some e ↦ refused (database_connection e)
    | none ↦ elim (db.select_names (conn_to port "template1") "GET_DATABASE_NAMES") [
      | err e ↦ refused e
      | ok names ↦ count_all port names []
    ]
  ]

-- `grpc.Dial` and the call `CheckDiskSpaceOnAgents`; a usage is a float64, of which the hub asks
-- whether it is at least 80, and its text by `%.1f`.
pub record DiskNet : Type 1 where
  pub Conn : Type 0
  pub Usage : Type 0
  pub dial : String → Result Conn
  pub usage_on : Conn → Result (List (String × Usage))
  pub at_limit : Usage → Bool
  pub shown : Usage → String

module _ (net : DiskNet) where
  open net use {Conn, Usage, dial, usage_on, at_limit, shown}

  abbrev pub warning : String → String × Usage → String
  warning host (filesystem, usage) =
      "diskspace check - "
      <> (host <> (" - WARNING " <> (filesystem <> (" " <> (shown usage <> " use")))))

  -- The loop over the file systems of one host: its messages, and `foundAnyTooFull`.
  unfoldable pub check_lines :
      String → List (String × Usage) → List String × Bool → List String × Bool
  check_lines host [] found = found
  check_lines host (line ∷ lines) (messages, any_too_full) = check_lines host lines (
      if at_limit line.1
      then (messages ++ (warning host line ∷ []), true)
      else (messages, any_too_full))

  end_host : String → List String × Bool → List String
  end_host host (messages, true) = messages
  end_host host (messages, false) = messages ++ (("diskspace check - " <> (host <> " - OK")) ∷ [])

  -- What a host adds to the messages.
  unfoldable pub check_host : String → Result (List (String × Usage)) → List String → List String
  unfolding check_lines end_host
  check_host host (err e) messages = messages ++ (("Could not get disk usage from: " <> host) ∷ [])
  check_host host (ok lines) messages = end_host host (check_lines host lines (messages, false))

  -- `GetDiskSpaceFromSegmentHosts`
  unfoldable pub get_disk_space_from_segment_hosts :
      List (String × Conn) → List String → List String
  unfolding check_host
  get_disk_space_from_segment_hosts [] messages = messages
  get_disk_space_from_segment_hosts ((host, conn) ∷ clients) messages =
      get_disk_space_from_segment_hosts clients (check_host host (usage_on conn) messages)

  -- The loop that dials: the clients, and a message for each host that could not be dialled.
  unfoldable pub dial_hosts :
      ℤ → List String → List (String × Conn) × List String → List (String × Conn) × List String
  dial_hosts port [] found = found
  dial_hosts port (host ∷ hosts) (clients, messages) = elim (dial (host <> (":" <> decimal port))) [
    | ok conn ↦ dial_hosts port hosts (clients ++ ((host, conn) ∷ []), messages)
    | err e ↦
        dial_hosts port hosts
          (clients, messages ++ (("ERROR: couldn't get gRPC conn to " <> host) ∷ []))
  ]

  all_messages : ℤ → Result (List String) → Result (List String)
  unfolding dial_hosts get_disk_space_from_segment_hosts
  all_messages port (err e) = err e
  all_messages port (ok hosts) =
      let (clients, messages) = dial_hosts port hosts ([], []) in
      ok (messages ++ get_disk_space_from_segment_hosts clients [])

  -- `CheckDiskSpace`, with a reader of its own.
  unfoldable pub check_disk_space : Codec → MapOrder → FilePath → ℤ → Sys (Result (List String))
  unfolding all_messages
  check_disk_space json order base port = do
    hosts ← get_hostnames json order (of_old_cluster_config base new_reader)
    pure (all_messages port hosts.0)
