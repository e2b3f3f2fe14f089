-- ===== src/Hub/Agents/Keeps.antt =====
-- hub/services/hub_status_conversion.go: the files of the hub around the calls to the agents.
use gpupgrade.Base.{ℤ, List, [], ◌∷◌, String}
use gpupgrade.System.{FilePath, Result, ok, err, Sys, pure, ◌>>=◌}
use gpupgrade.System.Keeps.{Keeps, Keeps-pure, Keeps-bind}
use gpupgrade.Config.Segment.{Codec, MapOrder}
use gpupgrade.Config.Reader.{Reader, get_hostnames, get_segment_configuration}
use gpupgrade.Config.Reader.Keeps.{get_hostnames-Keeps, get_segment_configuration-Keeps}
use gpupgrade.Hub.Agents.{Agents, Connection, dialled, agent_conns, ask_all, status_conversion}

module _ (d : FilePath) (agents : Agents) (json : Codec) (order : MapOrder) (port : ℤ) where
  agent_conns-Keeps :
      (conns : List (Connection agents)) (r : Reader)
      → Keeps d (agent_conns agents json order port conns r)
  unfolding agent_conns
  agent_conns-Keeps [] r =
      Keeps-bind d (get_hostnames json order r) _ (get_hostnames-Keeps d json order r)
        λ hosts. Keeps-pure d (dialled agents json order port hosts.0, hosts.1)
  agent_conns-Keeps (c ∷ conns) r = Keeps-pure d _

  abbrev Statuses : Type 0
  Statuses = (Result (List String) × List (Connection agents)) × Reader

  abbrev asked :
      List (Connection agents) → Reader → Result (List (Connection agents)) → Sys Statuses
  asked kept r (err e) = pure ((err e, kept), r)
  asked kept r (ok list) = do
    segments ← get_segment_configuration json r
    pure ((ask_all agents json order port segments.0 list [], kept), segments.1)

  asked-Keeps :
      (kept : List (Connection agents)) (r : Reader) (found : Result (List (Connection agents)))
      → Keeps d (asked kept r found)
  asked-Keeps kept r (err e) = Keeps-pure d _
  asked-Keeps kept r (ok list) =
      Keeps-bind d (get_segment_configuration json r) _ (get_segment_configuration-Keeps d json r)
        λ segments.
          Keeps-pure d ((ask_all agents json order port segments.0 list [], kept), segments.1)

  pub status_conversion-Keeps :
      (conns : List (Connection agents)) (r : Reader)
      → Keeps d (status_conversion agents json order port conns r)
  unfolding status_conversion
  status_conversion-Keeps conns r =
      Keeps-bind d (agent_conns agents json order port conns r) _ (agent_conns-Keeps conns r)
        λ found. asked-Keeps found.0.1 found.1 found.0.0
