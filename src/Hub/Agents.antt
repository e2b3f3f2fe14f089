-- ===== src/Hub/Agents.antt =====
-- hub/services/hub.go, `AgentConns` and `segmentsByHost`; hub_status_conversion.go; the call of the
-- agents in hub_upgrade_convert_primaries.go.
pub mod Laws
pub mod Keeps
use gpupgrade.Base.{
  ℕ, zero, suc, ◌+◌, String, ◌<>◌, ℤ, pos, int32, decimal, Bool, Option, none, some, List, [], ◌∷◌,
  ◌++◌, map, select, all, if◌then◌else◌, ◌==◌, string_eq, join_text, not, length,
}
use gpupgrade.System.{FilePath, Error, plain, Result, ok, err, Sys, pure, ◌>>=◌}
use gpupgrade.Idl.{SegmentInfo, DataDirPair, ConvertPrimariesRequest}
use gpupgrade.Config.Segment.{Segment, Codec, MapOrder, SegmentOrder}
use gpupgrade.Config.Reader.{Reader, get_hostnames, get_segment_configuration}
use gpupgrade.Hub.Convert.{get_data_dir_pairs}

-- The dialer of the hub, `GetState() == Ready` in a round of `ensureConnsAreReady`, and the two calls.
pub record Agents : Type 1 where
  pub Conn : Type 0
  pub dial : String → Result Conn
  pub is_ready : ℕ → Conn → Bool
  pub check_conversion : Conn → String → List SegmentInfo → Result (List String)
  pub convert_primaries : Conn → ConvertPrimariesRequest → Option Error

module _ (agents : Agents) where
  open agents use {Conn, dial, is_ready, check_conversion, convert_primaries}

  pub record Connection : Type 0 where
    pub conn : Conn
    pub hostname : String

  not_ready : List String → Error
  not_ready hostnames =
      plain ("the connections to the following hosts were not ready: " <> join_text hostnames ",")

  abbrev pub waiting : ℕ → List Connection → List String
  waiting i conns = map (λ c. c.hostname) (select (λ c. not (is_ready i c.conn)) conns)

  -- The loop `for i := 0; i < 3; i++` of `ensureConnsAreReady`, on the rounds that are left, the round
  -- and the hosts that were not ready so far.
  unfoldable pub ensure_ready : ℕ → ℕ → List String → List Connection → Option Error
  unfolding not_ready
  ensure_ready zero i hostnames conns = some (not_ready hostnames)
  ensure_ready (suc rounds) i hostnames conns =
      let later = ensure_ready rounds (suc i) (hostnames ++ waiting i conns) conns in
      if all (λ c. is_ready i c.conn) conns then none else later

  -- The loop over the hosts of `AgentConns`: its result, and what `h.agentConns` has become.
  unfoldable pub dial_all :
      ℤ → List String → List Connection → Result (List Connection) × List Connection
  dial_all port [] conns = (ok conns, conns)
  dial_all port (host ∷ hosts) conns = elim (dial (host <> (":" <> decimal port))) [
    | err e ↦ (err e, conns)
    | ok conn ↦ dial_all port hosts (conns ++ (record { conn = conn; hostname = host } ∷ []))
  ]

  module _ (json : Codec) (order : MapOrder) (port : ℤ) where
    abbrev pub dialled : Result (List String) → Result (List Connection) × List Connection
    dialled (err e) = (err e, [])
    dialled (ok hosts) = dial_all port hosts []

    abbrev pub checked : Option Error → List Connection → Result (List Connection)
    checked none conns = ok conns
    checked (some e) conns = err e

    -- `AgentConns`: its result, `h.agentConns` and the reader. The list is nil where it is empty.
    unfoldable pub agent_conns :
        List Connection → Reader → Sys ((Result (List Connection) × List Connection) × Reader)
    unfolding dial_all ensure_ready
    agent_conns [] r = do hosts ← get_hostnames json order r; pure (dialled hosts.0, hosts.1)
    agent_conns (c ∷ conns) r =
        pure ((checked (ensure_ready 3 0 [] (c ∷ conns)) (c ∷ conns), c ∷ conns), r)

    abbrev segment_info : Segment → SegmentInfo
    segment_info s = record { content = int32 s.content; dbid = int32 s.dbid; data_dir = s.datadir }

    -- `segmentsByHost`, as the function from a host to its segments.
    abbrev pub segments_by_host : List Segment → String → List Segment
    segments_by_host segments host = select (λ s. s.hostname == host) segments

    conversion_failed : String → Error
    conversion_failed hostname =
        plain
          ("agent on host " <> (hostname <> " returned an error when checking conversion status"))

    pub ask_all : List Segment → List Connection → List String → Result (List String)
    unfolding conversion_failed
    ask_all segments [] statuses = ok statuses
    ask_all segments (c ∷ conns) statuses =
        elim (check_conversion c.conn c.hostname
          (map segment_info (segments_by_host segments c.hostname))) [
            | err e ↦ err (conversion_failed c.hostname)
            | ok more ↦ ask_all segments conns (statuses ++ more)
          ]

    -- `StatusConversion`: its statuses, `h.agentConns` and the reader.
    unfoldable pub status_conversion :
        List Connection → Reader → Sys ((Result (List String) × List Connection) × Reader)
    unfolding agent_conns ask_all
    status_conversion conns r = do
      found ← agent_conns conns r
      elim found.0.0 [
        | err e ↦ pure ((err e, found.0.1), found.1)
        | ok list ↦ do
          segments ← get_segment_configuration json found.1
          pure ((ask_all segments.0 list [], found.0.1), segments.1)
      ]

    abbrev pairs_for : String → List (String × List DataDirPair) → List DataDirPair
    pairs_for host [] = []
    pairs_for host ((h, pairs) ∷ m) =
        let rest = pairs_for host m in if h == host then pairs else rest

    -- The calls to the agents, and how many of them failed.
    convert_on : String → String → List (String × List DataDirPair) → List Connection → List Error
    convert_on old_bin_dir new_bin_dir pairs [] = []
    convert_on old_bin_dir new_bin_dir pairs (c ∷ conns) =
        let rest = convert_on old_bin_dir new_bin_dir pairs conns in
        let q : ConvertPrimariesRequest = record {
          old_bin_dir = old_bin_dir;
          new_bin_dir = new_bin_dir;
          data_dir_pairs = pairs_for c.hostname pairs;
        } in
        elim (convert_primaries c.conn q) [ none ↦ rest | some e ↦ e ∷ rest ]

    agents_failed : List Error → Option Error
    agents_failed [] = none
    agents_failed (e ∷ errors) = some (
        plain (
          decimal (pos (suc (length errors)))
          <> " agents failed to start pg_upgrade on the primaries. See logs for additional details"))

    abbrev converted :
        String → String → List Connection → Result (List (String × List DataDirPair)) → Option Error
    converted old_bin_dir new_bin_dir conns (err e) = some e
    converted old_bin_dir new_bin_dir conns (ok pairs) =
        agents_failed (convert_on old_bin_dir new_bin_dir pairs conns)

    -- `UpgradeConvertPrimaries`: the error of its reply, `h.agentConns` and the reader.
    unfoldable pub upgrade_convert_primaries :
        SegmentOrder
        → FilePath
        → String
        → String
        → List Connection
        → Reader
        → Sys ((Option Error × List Connection) × Reader)
    unfolding agent_conns convert_on agents_failed
    upgrade_convert_primaries range base old_bin_dir new_bin_dir conns r = do
      found ← agent_conns conns r
      elim found.0.0 [
        | err e ↦ pure ((some e, found.0.1), found.1)
        | ok list ↦ do
          pairs ← get_data_dir_pairs json range base found.1
          pure ((converted old_bin_dir new_bin_dir list pairs.0, found.0.1), pairs.1)
      ]
