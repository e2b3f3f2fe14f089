-- ===== src/Tests/Upgrade.antt =====
-- The reply of `gpupgrade status upgrade` at a state directory.
use gpupgrade.Base.{◌≡◌, refl, true, pos, Option, none, some, [], ◌∷◌}
use gpupgrade.System.{◌/◌, is_within, below, dir, file, Fs, ok}
use gpupgrade.System.FilesLaws.{subtree}
use gpupgrade.Idl.{
  UpgradeStepStatus, check_config, seginstall, prepare_start_agents, share_oids,
  validate_start_cluster, reconfigure_ports, pending, running, complete, failed,
}
use gpupgrade.Config.Reader.{new_reader}
use gpupgrade.Checklist.Lifecycle.{missing, started, failed as gave_up, done}
use gpupgrade.Hub.Agents.{Agents}
use gpupgrade.Hub.StatusUpgrade.{status_upgrade}
use gpupgrade.Hub.StatusUpgrade.Entries.{Phases, AllShow, status_upgrade-entries}
use gpupgrade.Tests.{base, tree, with_files, succeeds, codec, in_order}

-- The configuration was checked, installing failed, and the OID files are being copied.
abbrev under_way : Fs
under_way =
    (base / "share-oids" / "in.progress", file "" 5)
    ∷ (base / "share-oids", dir)
    ∷ (base / "seginstall" / "failed", file "" 4)
    ∷ (base / "seginstall", dir)
    ∷ (base / "check-config" / "completed", file "" 3)
    ∷ (base / "check-config", dir)
    ∷ tree

abbrev phases : Phases
phases = record {
  checked = done;
  installed = gave_up;
  agents_started = missing;
  shared = started;
  validated = missing;
  reconfigured = missing;
}

under_way-AllShow : AllShow base phases under_way
unfolding subtree is_within below
under_way-AllShow = ((3, refl), (4, refl), refl, (5, refl), refl, refl)

abbrev net : Agents
net = record {
  Conn = Unit {0};
  dial = λ target. ok tt;
  is_ready = λ i conn. true;
  check_conversion = λ conn host segments. ok [];
  convert_primaries = λ conn q. none;
}

status_upgrade-entries_example :
    (init stop master primaries : Option UpgradeStepStatus) × ((status_upgrade succeeds net codec
        in_order
        (pos 6416)
        base
        []
        new_reader
        (with_files under_way)).0.0.0
      ≡ some (record { step = check_config; status = complete })
        ∷ some (record { step = seginstall; status = failed })
        ∷ init
        ∷ stop
        ∷ master
        ∷ some (record { step = prepare_start_agents; status = pending })
        ∷ some (record { step = share_oids; status = running })
        ∷ some (record { step = validate_start_cluster; status = pending })
        ∷ primaries
        ∷ some (record { step = reconfigure_ports; status = pending })
        ∷ [])
status_upgrade-entries_example =
    status_upgrade-entries succeeds (λ log c fs. refl) net codec in_order (pos 6416) base []
      new_reader (with_files under_way) phases refl under_way-AllShow
