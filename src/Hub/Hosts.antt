-- ===== src/Hub/Hosts.antt =====
-- hub/services/hub_check_seginstall.go and hub_prepare_startagents.go: what they start in the background
-- is part of what they return.
pub mod Laws
pub mod Keeps
use gpupgrade.Base.{String, Option, none, some, List, [], ◌∷◌}
use gpupgrade.System.{
  World, run_background, Background, Error, plain, Result, ok, err, Sys, pure, ◌>>=◌, ◌>>◌, Execer,
}
use gpupgrade.Config.Segment.{Codec, MapOrder}
use gpupgrade.Config.Reader.{Reader, get_hostnames}
use gpupgrade.Cluster.Ssher.{ClusterSsher, verify_software, start}

abbrev pub no_config : Error
no_config = plain "no cluster config found, did you forget to run gpupgrade check config?"

-- `if err != nil || len(clusterHostnames) == 0 { return … }`, then `go` with the work on the hosts: the
-- error of the reply, and what is started in the background.
unfoldable pub on_hosts :
    Result (List String) → (List String → Sys (Unit {0})) → Option Error × Background
on_hosts (err e) work = (some no_config, none)
on_hosts (ok []) work = (some no_config, none)
on_hosts (ok (h ∷ hosts)) work = (none, some (work (h ∷ hosts)))

-- The world when the handler has answered and what it started has run to its end.
abbrev pub background_ended : ((Option Error × Background) × Reader) × World → World
background_ended (((e, work), r), w) = (run_background work w).1

module _ (exec : Execer) (json : Codec) (order : MapOrder) (ssher : ClusterSsher) where
  -- `CheckSeginstall`: the error of its reply with what it starts in the background, and the reader.
  unfoldable pub check_seginstall : Reader → Sys ((Option Error × Background) × Reader)
  unfolding on_hosts verify_software
  check_seginstall r = do
    found ← get_hostnames json order r
    pure (on_hosts found.0 (verify_software exec ssher), found.1)

  -- `PrepareStartAgents`, with what the pinger will say.
  unfoldable pub prepare_start_agents :
      Option Error → Reader → Sys ((Option Error × Background) × Reader)
  unfolding on_hosts start
  prepare_start_agents pinged r = do
    found ← get_hostnames json order r
    pure (on_hosts found.0 (λ hosts. start exec ssher hosts pinged), found.1)
