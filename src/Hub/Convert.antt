-- ===== src/Hub/Convert.antt =====
-- hub/services/hub_upgrade_convert_master.go and hub_upgrade_convert_primaries.go: what the hub hands
-- to pg_upgrade on the master and, through the agents, on the primaries.
pub mod Laws
use gpupgrade.Base.{
  String, ◌<>◌, ℤ, pos, minus_one, int_eq, int32, decimal, Bool, true, false, not, ◌&&◌, Option,
  none, some, List, [], ◌∷◌, ◌++◌, if◌then◌else◌, find_first, ◌==◌, string_eq,
}
use gpupgrade.System.{
  FilePath, path_text, ◌/◌, Error, plain, Result, ok, err, Sys, pure, ◌>>=◌, Execer, Cmd, start,
  run_command, mkdir_all, open_truncate,
}
use gpupgrade.Idl.{DataDirPair}
use gpupgrade.Config.Segment.{Segment, Codec, SegmentOrder}
use gpupgrade.Config.Reader.{
  Reader, of_old_cluster_config, of_new_cluster_config, get_port_for_segment,
  get_segment_configuration,
}

module _ (json : Codec) (base : FilePath) where
  new_ports : ℤ → ℤ → Result (ℤ × ℤ)
  new_ports old new =
      if new == minus_one then err (plain "failed to get new port") else ok (old, new)

  -- `getMasterPorts`, on the hub's reader.
  unfoldable pub get_master_ports : Reader → Sys (Result (ℤ × ℤ) × Reader)
  unfolding new_ports
  get_master_ports r = do
    old ← get_port_for_segment json (pos 1) (of_old_cluster_config base r)
    if old.0 == minus_one then pure (err (plain "failed to get old port"), old.1) else do
      new ← get_port_for_segment json (pos 1) (of_new_cluster_config base old.1)
      pure (new_ports old.0 new.0, new.1)

  -- `UpgradeConvertMasterRequest`
  pub record ConvertMasterRequest : Type 0 where
    pub old_bin_dir : String
    pub old_data_dir : String
    pub new_bin_dir : String
    pub new_data_dir : String

  abbrev pub pg_upgrade_command : ConvertMasterRequest → ℤ → ℤ → Cmd
  pg_upgrade_command q old new = record {
    mode = start;
    name = "bash";
    args =
        "-c"
        ∷ ("unset PGHOST; unset PGPORT; cd "
            <> (path_text (base / "pg_upgrade")
                <> (" && nohup "
                    <> (q.new_bin_dir
                        <> ("/pg_upgrade --old-bindir="
                            <> (q.old_bin_dir
                                <> (" --old-datadir="
                                    <> (q.old_data_dir
                                        <> (" --new-bindir="
                                            <> (q.new_bin_dir
                                                <> (" --new-datadir="
                                                    <> (q.new_data_dir
                                                        <> (" --old-port="
                                                            <> (decimal old
                                                            <> (" --new-port="
                                                            <> (decimal new
                                                            <> " --dispatcher-mode --progress"))))))))))))))))
        ∷ [];
  }

  module _ (exec : Execer) where
    run_upgrade : ConvertMasterRequest → Result (ℤ × ℤ) → Sys (Option Error)
    run_upgrade q (err e) = pure (some (plain "pg_upgrade failed to run: "))
    run_upgrade q (ok (old, new)) = do
      outcome ← run_command exec (pg_upgrade_command q old new)
      elim outcome.error [
        | none ↦ pure none
        | some e ↦ pure (some (plain "pg_upgrade failed to run: "))
      ]

    mkdir_failed : Error
    mkdir_failed = plain "mkdir pg_upgrade failed. Is there an pg_upgrade in progress?"

    -- `convertMaster`
    unfoldable pub convert_master : ConvertMasterRequest → Reader → Sys (Option Error × Reader)
    unfolding run_upgrade mkdir_failed
    convert_master q r = do
      let wd = base / "pg_upgrade"
      made ← mkdir_all wd
      elim made [
        | some e ↦ pure (some mkdir_failed, r)
        | none ↦ do
          opened ← open_truncate (wd / "pg_upgrade_master.log")
          elim opened [
            | some e ↦ pure (some mkdir_failed, r)
            | none ↦ do
              ports ← get_master_ports r
              failure ← run_upgrade q ports.0
              pure (failure, ports.1)
          ]
      ]

-- The map from content ids to the primaries, as the list of its segments: one for each content id.
pub put : Segment → List Segment → List Segment
put s [] = s ∷ []
put s (t ∷ m) = let rest = put s m in if t.content == s.content then s ∷ m else t ∷ rest

abbrev pub lookup : ℤ → List Segment → Option Segment
lookup c m = find_first (λ s. s.content == c) m

abbrev is_primary : Segment → Bool
is_primary s = (s.preferred_role == "p") && not (s.content == minus_one)

primaries_from : List Segment → List Segment → List Segment
unfolding put
primaries_from [] m = m
primaries_from (s ∷ segments) m = primaries_from segments (if is_primary s then put s m else m)

-- `oldConfigMap` and `newConfigMap`.
unfoldable pub primaries : List Segment → List Segment
unfolding primaries_from
primaries segments = primaries_from segments []

-- The map from hosts to pairs: the keys in the order in which they were added.
add_pair :
    String → DataDirPair → List (String × List DataDirPair) → List (String × List DataDirPair)
add_pair host p [] = (host, p ∷ []) ∷ []
add_pair host p ((h, pairs) ∷ m) =
    let rest = add_pair host p m in
    if h == host then (h, pairs ++ (p ∷ [])) ∷ m else (h, pairs) ∷ rest

abbrev pair_of : Segment → Segment → DataDirPair
pair_of old new = record {
  old_data_dir = old.datadir;
  new_data_dir = new.datadir;
  old_port = int32 old.port;
  new_port = int32 new.port;
  content = int32 old.content;
}

no_new_dir : Segment → Error
no_new_dir old = plain (
    "could not find new data directory to match with old data directory for content id "
    <> decimal old.content)

other_host : Segment → Error
other_host old = plain (
    "old and new primary segments with content ID "
    <> (decimal old.content <> " do not have matching hostnames"))

-- The loop over `oldConfigMap`.
unfoldable pub match_pairs :
    List Segment
    → List Segment
    → List (String × List DataDirPair)
    → Result (List (String × List DataDirPair))
unfolding add_pair no_new_dir other_host
match_pairs [] new_map pairs = ok pairs
match_pairs (old ∷ rest) new_map pairs = elim (lookup old.content new_map) [
  | none ↦ err (no_new_dir old)
  | some new ↦
      let more = match_pairs rest new_map (add_pair old.hostname (pair_of old new) pairs) in
      if old.hostname == new.hostname then more else err (other_host old)
]

-- `getDataDirPairs`, on the hub's reader.
unfoldable pub get_data_dir_pairs :
    Codec
    → SegmentOrder
    → FilePath
    → Reader
    → Sys (Result (List (String × List DataDirPair)) × Reader)
unfolding primaries match_pairs
get_data_dir_pairs json order base r = do
  old ← get_segment_configuration json (of_old_cluster_config base r)
  new ← get_segment_configuration json (of_new_cluster_config base old.1)
  pure (match_pairs (order.range (primaries old.0)) (primaries new.0) [], new.1)
