-- ===== src/Cli/Commands/Calls.antt =====
-- cli/commanders: what each method asks of the hub, and when it succeeds.
use gpupgrade.Base.{
  String, ℤ, int32, ◌≡◌, refl, Bool, true, false, Option, none, some, List, [], ◌∷◌, ◌++◌, map, inl,
  inr,
}
use gpupgrade.System.{Error, Result, ok, err, Result-cases}
use gpupgrade.Hub.Checks.{CountPerDb}
use gpupgrade.Cli.Session.{
  Request, ReplyTo, status_upgrade_request, status_conversion_request, check_config_request,
  check_seginstall_request, check_object_count_request, check_version_request,
  check_disk_space_request, prepare_init_cluster_request, prepare_shutdown_clusters_request,
  prepare_start_agents_request, upgrade_convert_master_request, upgrade_convert_primaries_request,
  upgrade_share_oids_request, upgrade_validate_start_cluster_request,
  upgrade_reconfigure_ports_request, ping_request, Machine, Console, Cli,
}
use gpupgrade.Cli.Checkers.{
  config_checker, seginstall_checker, disk_space_checker, object_count_checker, version_checker,
  write_usages, write_counts,
}
use gpupgrade.Cli.Upgrader.{
  convert_master, convert_primaries, share_oids, validate_start_cluster, reconfigure_ports,
  shutdown_clusters, init_cluster, start_agents,
}
use gpupgrade.Idl.{UpgradeStepStatus}
use gpupgrade.Cli.Reporter.{report_string, overall_upgrade_status, overall_conversion_status}
use gpupgrade.Cli.Commands.{report_upgrade, report_conversion, shown, write_report}

abbrev pub answered : {A : Type 0} → Result A → Bool
answered (ok a) = true
answered (err e) = false

abbrev pub has_entries : {A : Type 0} → Result (List A) → Bool
has_entries (err e) = false
has_entries (ok []) = false
has_entries (ok (x ∷ xs)) = true

-- The answers that a command takes for a success: any to `PrepareShutdownClusters`, a list that is
-- not empty to the two requests for a status, and else any that is not an error.
abbrev pub accepted : (q : Request) → Result (ReplyTo q) → Bool
accepted status_upgrade_request r = has_entries r
accepted status_conversion_request r = has_entries r
accepted (prepare_shutdown_clusters_request old new) r = true
accepted ping_request r = answered r
accepted (check_config_request port dir) r = answered r
accepted check_seginstall_request r = answered r
accepted (check_object_count_request port) r = answered r
accepted (check_version_request host port) r = answered r
accepted check_disk_space_request r = answered r
accepted (prepare_init_cluster_request port dir) r = answered r
accepted prepare_start_agents_request r = answered r
accepted (upgrade_convert_master_request a b c d) r = answered r
accepted (upgrade_convert_primaries_request a b) r = answered r
accepted upgrade_share_oids_request r = answered r
accepted (upgrade_validate_start_cluster_request a b) r = answered r
accepted upgrade_reconfigure_ports_request r = answered r

abbrev pub is_none : Option Error → Bool
is_none none = true
is_none (some e) = false

-- The method makes the one request, leaves the files alone, and succeeds by the answer.
abbrev pub Calls : Machine → Request → Cli (Option Error) → Type 0
Calls m q act =
    (k : Console)
    → (is_none (act k).0 ≡ accepted q (m.call k.asked q))
      × ((act k).1.asked ≡ k.asked ++ (q ∷ []))
      × ((act k).1.world ≡ k.world)

-- Writing lines changes nothing else.
abbrev Writes : Cli (Unit {0}) → Type 0
Writes act = (k : Console) → ((act k).1.asked ≡ k.asked) × ((act k).1.world ≡ k.world)

write_usages-Writes : (m : Machine) (l : List String) → Writes (write_usages m l)
unfolding write_usages
write_usages-Writes m [] k = (refl, refl)
write_usages-Writes m (x ∷ l) k = write_usages-Writes m l _

write_counts-Writes : (m : Machine) (l : List CountPerDb) → Writes (write_counts m l)
unfolding write_counts
write_counts-Writes m [] k = (refl, refl)
write_counts-Writes m (x ∷ l) k = write_counts-Writes m l _

write_report-Writes : (l : List String) → Writes (write_report l)
unfolding write_report
write_report-Writes [] k = (refl, refl)
write_report-Writes (x ∷ l) k = write_report-Writes l _

abbrev Reports : Cli (Option Error) → Bool → Type 0
Reports act b =
    (k : Console)
    → (is_none (act k).0 ≡ b) × ((act k).1.asked ≡ k.asked) × ((act k).1.world ≡ k.world)

report_upgrade-ends :
    (r : Result (List UpgradeStepStatus))
    → Reports (shown (overall_upgrade_status r)) (has_entries r)
unfolding shown overall_upgrade_status
report_upgrade-ends (err e) k = (refl, refl, refl)
report_upgrade-ends (ok []) k = (refl, refl, refl)
report_upgrade-ends (ok (x ∷ l)) k =
    let (a, w) = write_report-Writes (map report_string (x ∷ l)) k in (refl, a, w)

report_conversion-ends :
    (r : Result (List String)) → Reports (shown (overall_conversion_status r)) (has_entries r)
unfolding shown overall_conversion_status
report_conversion-ends (err e) k = (refl, refl, refl)
report_conversion-ends (ok []) k = (refl, refl, refl)
report_conversion-ends (ok (x ∷ l)) k = let (a, w) = write_report-Writes (x ∷ l) k in (refl, a, w)

module _ (m : Machine) where
  pub config_checker-Calls :
      (port : ℤ) (dir : String)
      → Calls m (check_config_request (int32 port) dir) (config_checker m port dir)
  unfolding config_checker
  config_checker-Calls port dir k =
      elim (Result-cases (m.call k.asked (check_config_request (int32 port) dir))) [
        | inl (e, h) ↦ rw h (refl, refl, refl)
        | inr (a, h) ↦ rw h (refl, refl, refl)
      ]

  pub seginstall_checker-Calls : Calls m check_seginstall_request (seginstall_checker m)
  unfolding seginstall_checker
  seginstall_checker-Calls k = elim (Result-cases (m.call k.asked check_seginstall_request)) [
    | inl (e, h) ↦ rw h (refl, refl, refl)
    | inr (a, h) ↦ rw h ((refl, refl, refl))
  ]

  pub disk_space_checker-Calls : Calls m check_disk_space_request (disk_space_checker m)
  unfolding disk_space_checker
  disk_space_checker-Calls k = elim (Result-cases (m.call k.asked check_disk_space_request)) [
    | inl (e, h) ↦ rw h (refl, refl, refl)
    | inr (a, h) ↦ rw h (let (x, y) = write_usages-Writes m a _ in (refl, x, y))
  ]

  pub object_count_checker-Calls :
      (port : ℤ) → Calls m (check_object_count_request (int32 port)) (object_count_checker m port)
  unfolding object_count_checker
  object_count_checker-Calls port k =
      elim (Result-cases (m.call k.asked (check_object_count_request (int32 port)))) [
        | inl (e, h) ↦ rw h (refl, refl, refl)
        | inr (a, h) ↦ rw h (let (x, y) = write_counts-Writes m a _ in (refl, x, y))
      ]

  pub version_checker-Calls :
      (host : String) (port : ℤ)
      → Calls m (check_version_request host (int32 port)) (version_checker m host port)
  unfolding version_checker
  version_checker-Calls host port k =
      elim (Result-cases (m.call k.asked (check_version_request host (int32 port)))) [
        | inl (e, h) ↦ rw h (refl, refl, refl)
        | inr (a, h) ↦ rw h ((refl, refl, refl))
      ]

  pub convert_master-Calls :
      (a b c d : String)
      → Calls m (upgrade_convert_master_request a b c d) (convert_master m a b c d)
  unfolding convert_master
  convert_master-Calls a b c d k =
      elim (Result-cases (m.call k.asked (upgrade_convert_master_request a b c d))) [
        | inl (e, h) ↦ rw h (refl, refl, refl)
        | inr (a, h) ↦ rw h ((refl, refl, refl))
      ]

  pub convert_primaries-Calls :
      (a b : String) → Calls m (upgrade_convert_primaries_request a b) (convert_primaries m a b)
  unfolding convert_primaries
  convert_primaries-Calls a b k =
      elim (Result-cases (m.call k.asked (upgrade_convert_primaries_request a b))) [
        | inl (e, h) ↦ rw h (refl, refl, refl)
        | inr (a, h) ↦ rw h ((refl, refl, refl))
      ]

  pub share_oids-Calls : Calls m upgrade_share_oids_request (share_oids m)
  unfolding share_oids
  share_oids-Calls k = elim (Result-cases (m.call k.asked upgrade_share_oids_request)) [
    | inl (e, h) ↦ rw h (refl, refl, refl)
    | inr (a, h) ↦ rw h ((refl, refl, refl))
  ]

  pub validate_start_cluster-Calls :
      (a b : String)
      → Calls m (upgrade_validate_start_cluster_request a b) (validate_start_cluster m a b)
  unfolding validate_start_cluster
  validate_start_cluster-Calls a b k =
      elim (Result-cases (m.call k.asked (upgrade_validate_start_cluster_request a b))) [
        | inl (e, h) ↦ rw h (refl, refl, refl)
        | inr (a, h) ↦ rw h ((refl, refl, refl))
      ]

  pub reconfigure_ports-Calls : Calls m upgrade_reconfigure_ports_request (reconfigure_ports m)
  unfolding reconfigure_ports
  reconfigure_ports-Calls k =
      elim (Result-cases (m.call k.asked upgrade_reconfigure_ports_request)) [
        | inl (e, h) ↦ rw h (refl, refl, refl)
        | inr (a, h) ↦ rw h ((refl, refl, refl))
      ]

  pub shutdown_clusters-Calls :
      (a b : String) → Calls m (prepare_shutdown_clusters_request a b) (shutdown_clusters m a b)
  unfolding shutdown_clusters
  shutdown_clusters-Calls a b k =
      elim (Result-cases (m.call k.asked (prepare_shutdown_clusters_request a b))) [
        | inl (e, h) ↦ rw h (refl, refl, refl)
        | inr (a, h) ↦ rw h ((refl, refl, refl))
      ]

  pub init_cluster-Calls :
      (port : ℤ) (dir : String)
      → Calls m (prepare_init_cluster_request (int32 port) dir) (init_cluster m port dir)
  unfolding init_cluster
  init_cluster-Calls port dir k =
      elim (Result-cases (m.call k.asked (prepare_init_cluster_request (int32 port) dir))) [
        | inl (e, h) ↦ rw h (refl, refl, refl)
        | inr (a, h) ↦ rw h ((refl, refl, refl))
      ]

  pub start_agents-Calls : Calls m prepare_start_agents_request (start_agents m)
  unfolding start_agents
  start_agents-Calls k = elim (Result-cases (m.call k.asked prepare_start_agents_request)) [
    | inl (e, h) ↦ rw h (refl, refl, refl)
    | inr (a, h) ↦ rw h ((refl, refl, refl))
  ]

  pub report_upgrade-Calls : Calls m status_upgrade_request (report_upgrade m)
  unfolding report_upgrade shown overall_upgrade_status
  report_upgrade-Calls k =
      report_upgrade-ends (m.call k.asked status_upgrade_request)
        (record k { asked = k.asked ++ (status_upgrade_request ∷ []) })

  pub report_conversion-Calls : Calls m status_conversion_request (report_conversion m)
  unfolding report_conversion shown overall_conversion_status
  report_conversion-Calls k =
      report_conversion-ends (m.call k.asked status_conversion_request)
        (record k { asked = k.asked ++ (status_conversion_request ∷ []) })
