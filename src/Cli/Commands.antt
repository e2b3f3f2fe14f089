-- ===== src/Cli/Commands.antt =====
-- cli/commands.go: what each command does once its flags are read.
pub mod Calls
pub mod Laws
use gpupgrade.Base.{String, ◌<>◌, ℕ, Option, none, some, List, [], ◌∷◌}
use gpupgrade.System.{Error, Result, ok, err}
use gpupgrade.Hub.SaveConfig.{do_init}
use gpupgrade.Cli.Session.{
  status_upgrade_request, status_conversion_request, check_seginstall_request, info, error, printed,
  error_of, printed_of, Line, Machine, get_state_dir, Cli, pure, ◌>>=◌, ◌>>◌, write, on_world, ask,
}
use gpupgrade.Cli.Flags.{
  Command, version, sub_start_hub, sub_init_cluster, sub_shutdown_clusters, sub_start_agents,
  sub_init, sub_upgrade, sub_conversion, sub_version, sub_object_count, sub_disk_space, sub_config,
  sub_seginstall, sub_convert_master, sub_convert_primaries, sub_share_oids,
  sub_validate_start_cluster, sub_reconfigure_ports, master_host, old_data_dir, old_bin_dir,
  new_data_dir, new_bin_dir, db_port, new_cluster_db_port, Vars,
}
use gpupgrade.Cli.Checkers.{
  config_checker, seginstall_checker, disk_space_checker, object_count_checker, version_checker,
  version_string,
}
use gpupgrade.Cli.Upgrader.{
  convert_master, convert_primaries, share_oids, validate_start_cluster, reconfigure_ports,
  shutdown_clusters, init_cluster, start_agents, ping_hub, start_the_hub,
}
use gpupgrade.Cli.Reporter.{overall_upgrade_status, overall_conversion_status}

-- How a command ends: `Run` by its return or by `os.Exit`, and `RunE` by what it returns.
pub data Ending : Type 0 where
  exited : ℕ → Ending
  returned : Option Error → Ending

-- `if err != nil { gplog.Error(err.Error()); os.Exit(1) }`, at the end of a `Run`.
abbrev pub exit_on : Option Error → Cli Ending
exit_on none = pure (exited 0)
exit_on (some e) = do write (error_of e); pure (exited 1)

-- The loop over the lines of a report.
unfoldable pub write_report : List String → Cli (Unit {0})
write_report [] = pure tt
write_report (text ∷ texts) = do write (info text); write_report texts

unfoldable pub shown : Result (List String) → Cli (Option Error)
unfolding write_report
shown (err e) = pure (some e)
shown (ok texts) = do write_report texts; pure none

-- The two methods of the reporter.
unfoldable pub report_upgrade : Machine → Cli (Option Error)
unfolding shown
report_upgrade m = do reply ← ask m status_upgrade_request; shown (overall_upgrade_status reply)

unfoldable pub report_conversion : Machine → Cli (Option Error)
unfolding shown
report_conversion m = do
  reply ← ask m status_conversion_request
  shown (overall_conversion_status reply)

module _ (m : Machine) (hub_port : String) where
  -- `grpc.Dial("localhost:"+hubPort, …)`, and the exit where it fails.
  pub dialled : (Error → Line) → Option Error → Cli Ending → Cli Ending
  dialled failed none act = act
  dialled failed (some e) act = do write (failed e); pure (exited 1)

  unfoldable pub with_client : (Error → Line) → Cli Ending → Cli Ending
  unfolding dialled
  with_client failed act = dialled failed (m.dial ("localhost:" <> hub_port)) act

  after_pings : Option Error → Cli Ending
  after_pings none = pure (exited 0)
  after_pings (some e) = do
    write (error "gpupgrade is unable to connect via gRPC to the hub")
    write (error_of e)
    pure (exited 1)

  after_start : Option Error → Cli Ending
  unfolding with_client after_pings dialled
  after_start (some e) = do write (error_of e); pure (exited 1)
  after_start none = with_client error_of (do failure ← ping_hub m; after_pings failure)

  -- `subStartHub`
  unfoldable pub run_start_hub : Cli Ending
  unfolding after_start with_client after_pings dialled
  run_start_hub = do failure ← start_the_hub m; after_start failure

  pub after_seginstall : Option Error → Cli Ending
  after_seginstall (some e) = do write (error_of e); pure (exited 1)
  after_seginstall none = do
    write (
        printed
          "Seginstall is underway. Use command \"gpupgrade status upgrade\" to check its current status, and/or hub logs for possible errors.")
    pure (exited 0)

  -- `subSeginstall`
  unfoldable pub run_seginstall : Cli Ending
  unfolding with_client after_seginstall dialled
  run_seginstall =
      with_client error_of (do failure ← seginstall_checker m; after_seginstall failure)

  -- `version`
  unfoldable pub run_version_string : Cli Ending
  run_version_string = do write (printed (version_string m.upgrade_version)); pure (exited 0)

  module _ (vars : Vars) where
    -- `subInit`
    unfoldable pub run_init : Cli Ending
    run_init = do
      failure ← on_world (do_init m.json (get_state_dir m) (vars.text old_bin_dir))
      pure (returned failure)

    -- `subShutdownClusters`
    unfoldable pub run_shutdown_clusters : Cli Ending
    unfolding with_client dialled
    run_shutdown_clusters = with_client error_of (do
      failure ← shutdown_clusters m (vars.text old_bin_dir) (vars.text new_bin_dir)
      exit_on failure)

    -- `subStartAgents`
    unfoldable pub run_start_agents : Cli Ending
    unfolding with_client dialled
    run_start_agents = with_client error_of (do failure ← start_agents m; exit_on failure)

    -- `subInitCluster`
    unfoldable pub run_init_cluster : Cli Ending
    unfolding with_client dialled
    run_init_cluster = with_client error_of (do
      failure ← init_cluster m (vars.int new_cluster_db_port) (vars.text new_bin_dir)
      exit_on failure)

    -- `subUpgrade`
    unfoldable pub run_upgrade : Cli Ending
    unfolding with_client dialled
    run_upgrade = with_client error_of (do failure ← report_upgrade m; exit_on failure)

    -- `subVersion`
    unfoldable pub run_check_version : Cli Ending
    unfolding with_client dialled
    run_check_version = with_client error_of (do
      failure ← version_checker m (vars.text master_host) (vars.int db_port)
      pure (returned failure))

    -- `subObjectCount`
    unfoldable pub run_object_count : Cli Ending
    unfolding with_client dialled
    run_object_count =
        with_client printed_of
          (do failure ← object_count_checker m (vars.int db_port); pure (returned failure))

    -- `subDiskSpace`
    unfoldable pub run_disk_space : Cli Ending
    unfolding with_client dialled
    run_disk_space =
        with_client error_of (do failure ← disk_space_checker m; pure (returned failure))

    -- `subConversion`
    unfoldable pub run_conversion : Cli Ending
    unfolding with_client dialled
    run_conversion = with_client error_of (do failure ← report_conversion m; exit_on failure)

    -- `subConfig`
    unfoldable pub run_config : Cli Ending
    unfolding with_client dialled
    run_config =
        with_client error_of (do
          failure ← config_checker m (vars.int db_port) (vars.text old_bin_dir)
          exit_on failure)

    -- `subConvertMaster`
    unfoldable pub run_convert_master : Cli Ending
    unfolding with_client dialled
    run_convert_master = with_client error_of (do
      failure ←
          convert_master m (vars.text old_data_dir) (vars.text old_bin_dir) (vars.text new_data_dir)
            (vars.text new_bin_dir)
      exit_on failure)

    -- `subConvertPrimaries`
    unfoldable pub run_convert_primaries : Cli Ending
    unfolding with_client dialled
    run_convert_primaries = with_client error_of (do
      failure ← convert_primaries m (vars.text old_bin_dir) (vars.text new_bin_dir)
      exit_on failure)

    -- `subShareOids`
    unfoldable pub run_share_oids : Cli Ending
    unfolding with_client dialled
    run_share_oids = with_client error_of (do failure ← share_oids m; exit_on failure)

    -- `subValidateStartCluster`
    unfoldable pub run_validate_start_cluster : Cli Ending
    unfolding with_client dialled
    run_validate_start_cluster = with_client error_of (do
      failure ← validate_start_cluster m (vars.text new_data_dir) (vars.text new_bin_dir)
      exit_on failure)

    -- `subReconfigurePorts`
    unfoldable pub run_reconfigure_ports : Cli Ending
    unfolding with_client dialled
    run_reconfigure_ports = with_client error_of (do failure ← reconfigure_ports m; exit_on failure)

    -- The `Run` or `RunE` of a command.
    unfoldable pub run : Command → Cli Ending
    unfolding run_version_string run_start_hub run_init_cluster run_shutdown_clusters
        run_start_agents run_init run_upgrade run_conversion run_check_version run_object_count
        run_disk_space run_config run_seginstall run_convert_master run_convert_primaries
        run_share_oids run_validate_start_cluster run_reconfigure_ports
    run version = run_version_string
    run sub_start_hub = run_start_hub
    run sub_init_cluster = run_init_cluster
    run sub_shutdown_clusters = run_shutdown_clusters
    run sub_start_agents = run_start_agents
    run sub_init = run_init
    run sub_upgrade = run_upgrade
    run sub_conversion = run_conversion
    run sub_version = run_check_version
    run sub_object_count = run_object_count
    run sub_disk_space = run_disk_space
    run sub_config = run_config
    run sub_seginstall = run_seginstall
    run sub_convert_master = run_convert_master
    run sub_convert_primaries = run_convert_primaries
    run sub_share_oids = run_share_oids
    run sub_validate_start_cluster = run_validate_start_cluster
    run sub_reconfigure_ports = run_reconfigure_ports
