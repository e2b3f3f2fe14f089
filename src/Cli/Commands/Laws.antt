-- ===== src/Cli/Commands/Laws.antt =====
-- cli/commands.go: the one request of a command, and its exit code.
use gpupgrade.Base.{
  ℕ, String, ◌<>◌, int32, ◌≡◌, refl, Bool, false, Option, none, some, List, [], ◌∷◌, ◌++◌,
  if◌then◌else◌, sym, ap, ◌∙◌,
}
use gpupgrade.System.{Error}
use gpupgrade.Cli.Session.{
  Request, status_upgrade_request, status_conversion_request, check_config_request,
  check_seginstall_request, check_object_count_request, check_version_request,
  check_disk_space_request, prepare_init_cluster_request, prepare_shutdown_clusters_request,
  prepare_start_agents_request, upgrade_convert_master_request, upgrade_convert_primaries_request,
  upgrade_share_oids_request, upgrade_validate_start_cluster_request,
  upgrade_reconfigure_ports_request, Line, Machine, Console, Cli, ◌>>=◌, pure,
}
use gpupgrade.Cli.Flags.{
  Command, version, sub_start_hub, sub_init_cluster, sub_shutdown_clusters, sub_start_agents,
  sub_init, sub_upgrade, sub_conversion, sub_version, sub_object_count, sub_disk_space, sub_config,
  sub_seginstall, sub_convert_master, sub_convert_primaries, sub_share_oids,
  sub_validate_start_cluster, sub_reconfigure_ports, master_host, old_data_dir, old_bin_dir,
  new_data_dir, new_bin_dir, db_port, new_cluster_db_port, Vars,
}
use gpupgrade.Cli.Checkers.{
  config_checker, seginstall_checker, disk_space_checker, object_count_checker, version_checker,
}
use gpupgrade.Cli.Upgrader.{
  convert_master, convert_primaries, share_oids, validate_start_cluster, reconfigure_ports,
  shutdown_clusters, init_cluster, start_agents,
}
use gpupgrade.Cli.Commands.{
  report_upgrade, report_conversion, Ending, exited, returned, exit_on, with_client, dialled,
  after_seginstall, run,
}
use gpupgrade.Cli.Commands.Calls.{
  accepted, is_none, Calls, config_checker-Calls, seginstall_checker-Calls,
  disk_space_checker-Calls, object_count_checker-Calls, version_checker-Calls, convert_master-Calls,
  convert_primaries-Calls, share_oids-Calls, validate_start_cluster-Calls, reconfigure_ports-Calls,
  shutdown_clusters-Calls, init_cluster-Calls, start_agents-Calls, report_upgrade-Calls,
  report_conversion-Calls,
}
use mathlib.Core.List.{append-nil}
use mathlib.Core.Path.{subst}

-- The request of a command that has exactly one: its name and arguments, by the variables.
abbrev pub plan : Command → Vars → Option Request
plan version v = none
plan sub_start_hub v = none
plan sub_init v = none
plan sub_init_cluster v =
    some (prepare_init_cluster_request (int32 (v.int new_cluster_db_port)) (v.text new_bin_dir))
plan sub_shutdown_clusters v =
    some (prepare_shutdown_clusters_request (v.text old_bin_dir) (v.text new_bin_dir))
plan sub_start_agents v = some prepare_start_agents_request
plan sub_upgrade v = some status_upgrade_request
plan sub_conversion v = some status_conversion_request
plan sub_version v = some (check_version_request (v.text master_host) (int32 (v.int db_port)))
plan sub_object_count v = some (check_object_count_request (int32 (v.int db_port)))
plan sub_disk_space v = some check_disk_space_request
plan sub_config v = some (check_config_request (int32 (v.int db_port)) (v.text old_bin_dir))
plan sub_seginstall v = some check_seginstall_request
plan sub_convert_master v = some (
    upgrade_convert_master_request (v.text old_data_dir) (v.text old_bin_dir) (v.text new_data_dir)
      (v.text new_bin_dir))
plan sub_convert_primaries v =
    some (upgrade_convert_primaries_request (v.text old_bin_dir) (v.text new_bin_dir))
plan sub_share_oids v = some upgrade_share_oids_request
plan sub_validate_start_cluster v =
    some (upgrade_validate_start_cluster_request (v.text new_data_dir) (v.text new_bin_dir))
plan sub_reconfigure_ports v = some upgrade_reconfigure_ports_request

-- The exit code that an ending comes to.
abbrev pub code : Ending → ℕ
code (exited n) = n
code (returned none) = 0
code (returned (some e)) = 1

abbrev pub exit_code : Bool → ℕ
exit_code accepted = if accepted then 0 else 1

abbrev pub asked_by : Option Error → Request → List Request
asked_by none q = q ∷ []
asked_by (some e) q = []

abbrev pub succeeds_by : Option Error → Bool → Bool
succeeds_by none b = b
succeeds_by (some e) b = false

-- What `act` comes to on a machine where the dial gives `d`.
abbrev EndsBy : Machine → Option Error → Request → Cli Ending → Type 0
EndsBy m d q act =
    (k : Console)
    → (code (act k).0 ≡ exit_code (succeeds_by d (accepted q (m.call k.asked q))))
      × ((act k).1.asked ≡ k.asked ++ asked_by d q)
      × ((act k).1.world ≡ k.world)

abbrev pub Ends : Machine → String → Request → Cli Ending → Type 0
Ends m port q act = EndsBy m (m.dial ("localhost:" <> port)) q act

-- How a command ends after its call.
abbrev Finishes : (Option Error → Cli Ending) → Type 0
Finishes finish =
    (o : Option Error) (k : Console)
    → (code (finish o k).0 ≡ exit_code (is_none o))
      × ((finish o k).1.asked ≡ k.asked)
      × ((finish o k).1.world ≡ k.world)

exit_on-Finishes : Finishes exit_on
exit_on-Finishes none k = (refl, refl, refl)
exit_on-Finishes (some e) k = (refl, refl, refl)

abbrev returns : Option Error → Cli Ending
returns o = pure (returned o)

returned-Finishes : Finishes returns
returned-Finishes none k = (refl, refl, refl)
returned-Finishes (some e) k = (refl, refl, refl)

module _ (m : Machine) (port : String) where
  after_seginstall-Finishes : Finishes (after_seginstall m port)
  unfolding after_seginstall
  after_seginstall-Finishes none k = (refl, refl, refl)
  after_seginstall-Finishes (some e) k = (refl, refl, refl)

  dialled-Ends :
      (q : Request) (act : Cli (Option Error)) (finish : Option Error → Cli Ending)
      → Calls m q act
      → Finishes finish
      → (failed : Error → Line) (d : Option Error)
      → EndsBy m d q (dialled m port failed d (do o ← act; finish o))
  unfolding dialled
  dialled-Ends q act finish calls ends failed (some e) k = (refl, sym (append-nil k.asked), refl)
  dialled-Ends q act finish calls ends failed none k =
      let (a, b, c) = calls k in
      let (a', b', c') = ends (act k).0 (act k).1 in (a' ∙ ap exit_code a, b' ∙ b, c' ∙ c)

  with_client-Ends :
      (q : Request) (act : Cli (Option Error)) (finish : Option Error → Cli Ending)
      → Calls m q act
      → Finishes finish
      → (failed : Error → Line) → Ends m port q (with_client m port failed (do o ← act; finish o))
  unfolding with_client
  with_client-Ends q act finish calls ends failed =
      dialled-Ends q act finish calls ends failed (m.dial ("localhost:" <> port))

  abbrev EndsAs : Option Request → Cli Ending → Type 0
  EndsAs none act = Unit
  EndsAs (some q) act = Ends m port q act

  run-EndsAs : (v : Vars) (c : Command) → EndsAs (plan c v) (run m port v c)
  unfolding run
  run-EndsAs v version = tt
  run-EndsAs v sub_start_hub = tt
  run-EndsAs v sub_init = tt
  run-EndsAs v sub_init_cluster =
      with_client-Ends _ (init_cluster m (v.int new_cluster_db_port) (v.text new_bin_dir)) exit_on
        (init_cluster-Calls m (v.int new_cluster_db_port) (v.text new_bin_dir)) exit_on-Finishes _
  run-EndsAs v sub_shutdown_clusters =
      with_client-Ends _ (shutdown_clusters m (v.text old_bin_dir) (v.text new_bin_dir)) exit_on
        (shutdown_clusters-Calls m (v.text old_bin_dir) (v.text new_bin_dir)) exit_on-Finishes _
  run-EndsAs v sub_start_agents =
      with_client-Ends _ (start_agents m) exit_on (start_agents-Calls m) exit_on-Finishes _
  run-EndsAs v sub_upgrade =
      with_client-Ends _ (report_upgrade m) exit_on (report_upgrade-Calls m) exit_on-Finishes _
  run-EndsAs v sub_conversion =
      with_client-Ends _ (report_conversion m) exit_on (report_conversion-Calls m) exit_on-Finishes
        _
  run-EndsAs v sub_version =
      with_client-Ends _ (version_checker m (v.text master_host) (v.int db_port)) returns
        (version_checker-Calls m (v.text master_host) (v.int db_port)) returned-Finishes _
  run-EndsAs v sub_object_count =
      with_client-Ends _ (object_count_checker m (v.int db_port)) returns
        (object_count_checker-Calls m (v.int db_port)) returned-Finishes _
  run-EndsAs v sub_disk_space =
      with_client-Ends _ (disk_space_checker m) returns (disk_space_checker-Calls m)
        returned-Finishes _
  run-EndsAs v sub_config =
      with_client-Ends _ (config_checker m (v.int db_port) (v.text old_bin_dir)) exit_on
        (config_checker-Calls m (v.int db_port) (v.text old_bin_dir)) exit_on-Finishes _
  run-EndsAs v sub_seginstall =
      with_client-Ends _ (seginstall_checker m) (after_seginstall m port)
        (seginstall_checker-Calls m) after_seginstall-Finishes _
  run-EndsAs v sub_convert_master =
      with_client-Ends _
        (convert_master m (v.text old_data_dir) (v.text old_bin_dir) (v.text new_data_dir)
          (v.text new_bin_dir))
        exit_on
        (convert_master-Calls m (v.text old_data_dir) (v.text old_bin_dir) (v.text new_data_dir)
          (v.text new_bin_dir))
        exit_on-Finishes _
  run-EndsAs v sub_convert_primaries =
      with_client-Ends _ (convert_primaries m (v.text old_bin_dir) (v.text new_bin_dir)) exit_on
        (convert_primaries-Calls m (v.text old_bin_dir) (v.text new_bin_dir)) exit_on-Finishes _
  run-EndsAs v sub_share_oids =
      with_client-Ends _ (share_oids m) exit_on (share_oids-Calls m) exit_on-Finishes _
  run-EndsAs v sub_validate_start_cluster =
      with_client-Ends _ (validate_start_cluster m (v.text new_data_dir) (v.text new_bin_dir))
        exit_on (validate_start_cluster-Calls m (v.text new_data_dir) (v.text new_bin_dir))
        exit_on-Finishes _
  run-EndsAs v sub_reconfigure_ports =
      with_client-Ends _ (reconfigure_ports m) exit_on (reconfigure_ports-Calls m) exit_on-Finishes
        _

  EndsAs-some :
      (o : Option Request) (q : Request) (act : Cli Ending)
      → o ≡ some q
      → EndsAs o act
      → Ends m port q act
  EndsAs-some none q act e h = cc
  EndsAs-some (some q') q act e h = subst (λ o. EndsAs o act) e h

  pub run-Ends :
      (v : Vars) (c : Command) (q : Request) → plan c v ≡ some q → Ends m port q (run m port v c)
  run-Ends v c q e = EndsAs-some (plan c v) q (run m port v c) e (run-EndsAs v c)
