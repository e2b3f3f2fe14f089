-- ===== src/Hub/StatusUpgrade/Entries.antt =====
-- hub/services/hub_status_upgrade.go: the reply, against the phases of the steps.
use gpupgrade.Base.{String, ℤ, ◌≡◌, refl, ap, Option, some, List, [], ◌∷◌}
use gpupgrade.System.{FilePath, ◌/◌, Fs, World, Sys, Execer, Cmd, stat}
use gpupgrade.System.FilesLaws.{subtree}
use gpupgrade.System.Keeps.{Keeps, Keeps-pure, Keeps-bind, Keeps-stat}
use gpupgrade.Idl.{
  UpgradeSteps, UpgradeStepStatus, check_config, seginstall, prepare_start_agents, share_oids,
  validate_start_cluster, reconfigure_ports,
}
use gpupgrade.Config.Segment.{Codec, MapOrder, get_new_cluster_config_file_path}
use gpupgrade.Config.Reader.{Reader, get_master_data_dir}
use gpupgrade.Config.Reader.Keeps.{get_master_data_dir-Keeps}
use gpupgrade.Checklist.Lifecycle.{Phase, Shows}
use gpupgrade.Checklist.Calm.{Shows-subtree}
use gpupgrade.Status.StateCheck.{reply, get_status}
use gpupgrade.Status.StateCheck.Laws.{get_status-Shows, phase_status}
use gpupgrade.Status.ShutDown.{get_status as shut_down_status}
use gpupgrade.Status.ShutDown.Keeps.{shut_down-Keeps}
use gpupgrade.Status.ConvertMaster.{get_status as convert_master_status}
use gpupgrade.Status.ConvertMaster.Keeps.{convert_master-Keeps}
use gpupgrade.Hub.Agents.{Agents, Connection, status_conversion}
use gpupgrade.Hub.Agents.Keeps.{status_conversion-Keeps}
use gpupgrade.Hub.StatusUpgrade.{init_status, get_prepare_new_cluster_config_status, status_upgrade}

-- An entry of the reply.
abbrev pub entry : UpgradeSteps → Phase → Option UpgradeStepStatus
entry step p = some (record { step = step; status = phase_status p })

module _ (base : FilePath) where
  -- What is known of a world in which no call fails and a step's directory shows a phase.
  record Seen (name : String) (p : Phase) (w : World) : Type 0 where
    calm : w.faults ≡ []
    shows : Shows (base / name) p w.fs

  read_entry :
      (name : String) (step : UpgradeSteps) (p : Phase) (w : World)
      → Seen name p w
      → get_status (record { path = base / name; step = step }) w ≡ (reply step (phase_status p), w)
  read_entry name step p w seen =
      get_status-Shows (record { path = base / name; step = step }) p w seen.calm seen.shows

  -- A call that keeps the directory leaves it as it was seen.
  still :
      {A : Type 0} (name : String) (p : Phase) (m : Sys A) (w : World)
      → Keeps (base / name) m
      → Seen name p w
      → Seen name p (m w).1
  still name p m w keeps seen = record {
    calm = keeps.calm w seen.calm;
    shows = Shows-subtree (base / name) p w.fs (m w).1.fs (keeps.kept w) seen.shows;
  }

  prepare_init-Keeps : (d : FilePath) → Keeps d (get_prepare_new_cluster_config_status base)
  unfolding get_prepare_new_cluster_config_status
  prepare_init-Keeps d =
      Keeps-bind d (stat (get_new_cluster_config_file_path base)) _
        (Keeps-stat d (get_new_cluster_config_file_path base))
        λ found. Keeps-pure d (init_status found)

-- The phases of the six steps that have a directory of the checklist.
pub record Phases : Type 0 where
  pub checked : Phase
  pub installed : Phase
  pub agents_started : Phase
  pub shared : Phase
  pub validated : Phase
  pub reconfigured : Phase

abbrev pub AllShow : FilePath → Phases → Fs → Type 0
AllShow base p fs =
    Shows (base / "check-config") p.checked fs
    × Shows (base / "seginstall") p.installed fs
    × Shows (base / "start-agents") p.agents_started fs
    × Shows (base / "share-oids") p.shared fs
    × Shows (base / "validate-start-cluster") p.validated fs
    × Shows (base / "reconfigure-ports") p.reconfigured fs

module _ (exec : Execer) (leaves : (log : List Cmd) (c : Cmd) (fs : Fs) → (exec log c fs).1 ≡ fs)
    (agents : Agents) (json : Codec) (order : MapOrder) (port : ℤ) (base : FilePath)
    (conns : List (Connection agents)) (r : Reader) (w : World) where
  abbrev w1 : World
  w1 = (get_prepare_new_cluster_config_status base w).1

  abbrev stopped : Option UpgradeStepStatus × World
  stopped =
      let (x, v) = shut_down_status exec (record { gpstop_state_path = base / "gpstop" }) w1 in
      (x.0, v)

  abbrev found_dir : (String × Reader) × World
  found_dir = get_master_data_dir json r stopped.1

  abbrev converted : Option UpgradeStepStatus × World
  converted =
      let (x, v) =
        convert_master_status exec
          (record { pg_upgrade_path = base / "pg_upgrade"; old_data_dir = found_dir.0.0 })
          found_dir.1 in
      (x.0, v)

  abbrev w5 : World
  w5 = (status_conversion agents json order port conns found_dir.0.1 converted.1).1

  -- The worlds in which the directories are read.
  Seen-throughout :
      (name : String) (p : Phase)
      → Seen base name p w
      → Seen base name p w1 × Seen base name p converted.1 × Seen base name p w5
  Seen-throughout name p seen =
      let d = base / name in
      let spares : (log : List Cmd) (c : Cmd) (fs : Fs)
          → subtree d (exec log c fs).1 ≡ subtree d fs =
        λ log c fs. ap (subtree d) (leaves log c fs) in
      let at1 = still base name p _ w (prepare_init-Keeps base d) seen in
      let at2 = still base name p _ w1 (shut_down-Keeps d exec spares _) at1 in
      let at3 = still base name p _ stopped.1 (get_master_data_dir-Keeps d json r) at2 in
      let at4 = still base name p _ found_dir.1 (convert_master-Keeps d exec spares _) at3 in
      let at5 =
        still base name p _ converted.1
          (status_conversion-Keeps d agents json order port conns found_dir.0.1) at4 in
      (at1, at4, at5)

  -- If no file operation fails and the commands that look for processes change no file, the reply of
  -- `StatusUpgrade` has, at their places, the statuses of the phases that the directories of the six
  -- steps of the checklist show.
  pub status_upgrade-entries :
      (p : Phases)
      → w.faults ≡ []
      → AllShow base p w.fs
      → (init stop master primaries : Option UpgradeStepStatus) × ((status_upgrade exec agents json
            order port base conns r w).0.0.0
          ≡ entry check_config p.checked
            ∷ entry seginstall p.installed
            ∷ init
            ∷ stop
            ∷ master
            ∷ entry prepare_start_agents p.agents_started
            ∷ entry share_oids p.shared
            ∷ entry validate_start_cluster p.validated
            ∷ primaries
            ∷ entry reconfigure_ports p.reconfigured
            ∷ [])
  unfolding status_upgrade
  status_upgrade-entries p calm (s1, s2, s3, s4, s5, s6) =
      let seen : (name : String) (q : Phase) → Shows (base / name) q w.fs → Seen base name q w =
        λ name q h. record { calm = calm; shows = h } in
      let (a2, _, _) = Seen-throughout "seginstall" p.installed (seen _ _ s2) in
      let (_, b3, _) = Seen-throughout "start-agents" p.agents_started (seen _ _ s3) in
      let (_, b4, _) = Seen-throughout "share-oids" p.shared (seen _ _ s4) in
      let (_, b5, _) = Seen-throughout "validate-start-cluster" p.validated (seen _ _ s5) in
      let (_, _, c6) = Seen-throughout "reconfigure-ports" p.reconfigured (seen _ _ s6) in
      rw (read_entry base "check-config" check_config p.checked w (seen _ _ s1)) (
        rw (read_entry base "seginstall" seginstall p.installed w1 a2) (
          rw (read_entry base "start-agents" prepare_start_agents p.agents_started converted.1 b3) (
            rw (read_entry base "share-oids" share_oids p.shared converted.1 b4) (
              rw
                (read_entry base "validate-start-cluster" validate_start_cluster p.validated
                  converted.1 b5)
                (rw (read_entry base "reconfigure-ports" reconfigure_ports p.reconfigured w5 c6)
                  (_, _, _, _, refl))))))
