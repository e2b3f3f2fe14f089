-- ===== src/Cli/Upgrader.antt =====
-- cli/commanders/upgrader.go, and the methods of preparer.go that make a call to the hub.
use gpupgrade.Base.{ℕ, zero, suc, String, ℤ, int32, Option, none, some, List, [], ◌∷◌, ◌++◌}
use gpupgrade.System.{Error, Result, ok, err}
use gpupgrade.Cli.Preparer.{Pings, verify_connectivity, start_hub}
use gpupgrade.Cli.Session.{
  Request, ping_request, prepare_init_cluster_request, prepare_shutdown_clusters_request,
  prepare_start_agents_request, upgrade_convert_master_request, upgrade_convert_primaries_request,
  upgrade_share_oids_request, upgrade_validate_start_cluster_request,
  upgrade_reconfigure_ports_request, info, error, error_of, Line, Machine, Cli, pure, ◌>>=◌, ◌>>◌,
  write, on_world, ask,
}

-- The two ends of a call that has no reply to read: a line for the error, and one for the success.
abbrev pub tell : (Error → Line) → String → Result (Unit {0}) → Cli (Option Error)
tell failed done (err e) = do write (failed e); pure (some e)
tell failed done (ok _) = do write (info done); pure none

-- The same, where the error is returned without a line.
abbrev pub tell_success : String → Result (Unit {0}) → Cli (Option Error)
tell_success done (err e) = pure (some e)
tell_success done (ok _) = do write (info done); pure none

-- An answer that `ShutdownClusters` logs, and takes for a success.
abbrev pub logged : String → Result (Unit {0}) → Cli (Option Error)
logged done (err e) = do write (error_of e); write (info done); pure none
logged done (ok _) = do write (info done); pure none

abbrev pub error_in : {A : Type 0} → Result A → Option Error
error_in (err e) = some e
error_in (ok a) = none

abbrev pub pings : ℕ → List Request
pings zero = []
pings (suc n) = ping_request ∷ pings n

module _ (m : Machine) where
  -- The methods of `Upgrader`.
  unfoldable pub convert_master : String → String → String → String → Cli (Option Error)
  convert_master old_data_dir old_bin_dir new_data_dir new_bin_dir = do
    reply ← ask m (upgrade_convert_master_request old_data_dir old_bin_dir new_data_dir new_bin_dir)
    tell (λ e. error "ERROR - Unable to connect to hub") "Kicked off pg_upgrade request." reply

  unfoldable pub convert_primaries : String → String → Cli (Option Error)
  convert_primaries old_bin_dir new_bin_dir = do
    reply ← ask m (upgrade_convert_primaries_request old_bin_dir new_bin_dir)
    tell (λ e. error "Error when calling hub upgrade convert primaries: ")
        "Kicked off pg_upgrade request for primaries" reply

  unfoldable pub share_oids : Cli (Option Error)
  share_oids = do
    reply ← ask m upgrade_share_oids_request
    tell error_of "Kicked off request to share oids" reply

  unfoldable pub validate_start_cluster : String → String → Cli (Option Error)
  validate_start_cluster new_data_dir new_bin_dir = do
    reply ← ask m (upgrade_validate_start_cluster_request new_data_dir new_bin_dir)
    tell error_of "Kicked off request for validation of cluster startup" reply

  unfoldable pub reconfigure_ports : Cli (Option Error)
  reconfigure_ports = do
    reply ← ask m upgrade_reconfigure_ports_request
    tell error_of "Request to reconfigure master port on upgraded cluster complete" reply

  -- The methods of `Preparer`.
  unfoldable pub shutdown_clusters : String → String → Cli (Option Error)
  shutdown_clusters old_bin_dir new_bin_dir = do
    reply ← ask m (prepare_shutdown_clusters_request old_bin_dir new_bin_dir)
    logged "request to shutdown clusters sent to hub" reply

  unfoldable pub init_cluster : ℤ → String → Cli (Option Error)
  init_cluster db_port new_bin_dir = do
    reply ← ask m (prepare_init_cluster_request (int32 db_port) new_bin_dir)
    tell_success "Gleaning the new cluster config" reply

  unfoldable pub start_agents : Cli (Option Error)
  start_agents = do
    reply ← ask m prepare_start_agents_request
    tell_success "Started Agents in progress, check gpupgrade_agent logs for details" reply

  -- How the pings of a run fare, after what it has asked.
  abbrev pub pings_after : List Request → Pings
  pings_after asked k = error_in (m.call (asked ++ pings k) ping_request)

  -- `VerifyConnectivity`, with the pings that it makes.
  unfoldable pub ping_hub : Cli (Option Error)
  ping_hub c =
      let (failure, n) = verify_connectivity (pings_after c.asked) in
      (failure, record c { asked = c.asked ++ pings n })

  unfoldable pub start_the_hub : Cli (Option Error)
  start_the_hub = on_world (start_hub m.exec m.parsed)
