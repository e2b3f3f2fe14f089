-- ===== src/Hub/Steps.antt =====
-- hub/services: the steps that run commands under a checklist. `hub_upgrade_share_oids.go`,
-- `hub_upgrade_validate_start_cluster.go`, `hub_upgrade_reconfigure_ports.go`,
-- `hub_prepare_shutdown_clusters.go`.
pub mod Laws
pub mod ShareOids
pub mod Keeps
pub mod Shutdown
use gpupgrade.Base.{
  String, ◌<>◌, ℤ, Bool, true, false, Option, none, some, List, [], ◌∷◌, join_text, decimal,
  if◌then◌else◌,
}
use gpupgrade.System.{
  Background, FilePath, ◌/◌, path_text, Error, Result, ok, err, Sys, pure, ◌>>=◌, ◌>>◌, Execer, Cmd,
  output, combined_output, run_command,
}
use gpupgrade.Config.Segment.{Codec, MapOrder}
use gpupgrade.Config.Reader.{Reader, get_hostnames}
use gpupgrade.Checklist.{
  ChecklistManager, new_checklist_manager, reset_state_dir, mark_in_progress, mark_failed,
  mark_complete,
}
use gpupgrade.Cluster.Pair.{
  Pair, either_postmaster_running, stop_everything, get_ports_and_data_dir_for_reconfiguration,
}

abbrev pub rsync_command : FilePath → String → Cmd
rsync_command state_dir host =
    let pg_upgrade = path_text (state_dir / "pg_upgrade") in
    record {
      mode = combined_output;
      name = "bash";
      args =
          "-c"
          ∷ join_text
              ("rsync"
                ∷ "-rzpogt"
                ∷ (pg_upgrade <> "/pg_upgrade_dump_*_oids.sql")
                ∷ ("gpadmin@" <> (host <> (":" <> pg_upgrade)))
                ∷ [])
              " "
          ∷ [];
    }

abbrev pub gpstart_command : String → String → String → Cmd
gpstart_command pythonpath new_bin_dir new_data_dir = record {
  mode = output;
  name = "bash";
  args =
      "-c"
      ∷ ("PYTHONPATH="
          <> (pythonpath <> (" && " <> (new_bin_dir <> ("/gpstart -a -d " <> new_data_dir)))))
      ∷ [];
}

-- `SedAndMvString`, with the new port, the old port and the directory.
abbrev pub sed_command : ℤ → ℤ → String → Cmd
sed_command new_port old_port dir =
    let conf = dir <> "/postgresql.conf" in
    record {
      mode = combined_output;
      name = "bash";
      args =
          "-c"
          ∷ ("sed 's/port="
              <> (decimal new_port
                  <> ("/port="
                      <> (decimal old_port
                          <> ("/' "
                              <> (conf
                                  <> (" > "
                                      <> (conf
                                          <> (".updated && mv "
                                              <> (conf
                                                  <> (" "
                                                      <> (conf
                                                          <> (".bak && mv "
                                                            <> (conf
                                                            <> (".updated " <> conf)))))))))))))))
          ∷ [];
    }

-- The hosts to copy to: an error of the reader is logged, and leaves none.
abbrev pub hosts_of : Result (List String) → List String
hosts_of (err e) = []
hosts_of (ok hosts) = hosts

module _ (exec : Execer) where
  -- What follows one `rsync`: each failure is marked anew.
  unfoldable pub after_rsync : ChecklistManager → Option Error → Bool → Sys Bool
  after_rsync c none any_failed = pure any_failed
  after_rsync c (some e) any_failed = do mark_failed c "share-oids"; pure true

  unfoldable pub rsync_all : FilePath → List String → Bool → Sys Bool
  unfolding after_rsync
  rsync_all state_dir [] any_failed = pure any_failed
  rsync_all state_dir (host ∷ hostnames) any_failed = do
    outcome ← run_command exec (rsync_command state_dir host)
    failed ← after_rsync (new_checklist_manager state_dir) outcome.error any_failed
    rsync_all state_dir hostnames failed

  unfoldable pub finish_share : ChecklistManager → Bool → Sys (Unit {0})
  finish_share c true = pure tt
  finish_share c false = do mark_complete c "share-oids"; pure tt

  -- `shareOidFiles`; errors of the checklist are logged only.
  unfoldable pub share_oid_files : Codec → MapOrder → FilePath → Reader → Sys Reader
  unfolding rsync_all finish_share
  share_oid_files json order state_dir reader = do
    let c = new_checklist_manager state_dir
    reset_state_dir c "share-oids"
    mark_in_progress c "share-oids"
    found ← get_hostnames json order reader
    any_failed ← rsync_all state_dir (hosts_of found.0) false
    finish_share c any_failed
    pure found.1

  unfoldable pub end_validation : ChecklistManager → Option Error → Sys (Unit {0})
  end_validation c none = do mark_complete c "validate-start-cluster"; pure tt
  end_validation c (some e) = do mark_failed c "validate-start-cluster"; pure tt

  -- `startNewCluster`, which gives up where the checklist cannot be written.
  unfoldable pub start_new_cluster : String → FilePath → String → String → Sys (Unit {0})
  unfolding end_validation
  start_new_cluster pythonpath state_dir new_bin_dir new_data_dir = do
    let c = new_checklist_manager state_dir
    cleared ← reset_state_dir c "validate-start-cluster"
    elim cleared [
      | some e ↦ pure tt
      | none ↦ do
        marked ← mark_in_progress c "validate-start-cluster"
        elim marked [
          | some e ↦ pure tt
          | none ↦ do
            outcome ← run_command exec (gpstart_command pythonpath new_bin_dir new_data_dir)
            end_validation c outcome.error
        ]
    ]

  unfoldable pub end_reconfigure : ChecklistManager → Option Error → Sys (Option Error)
  end_reconfigure c none = do mark_complete c "reconfigure-ports"; pure none
  end_reconfigure c (some e) = do mark_failed c "reconfigure-ports"; pure (some e)

  -- `UpgradeReconfigurePorts`: the error of the reply.
  unfoldable pub upgrade_reconfigure_ports : FilePath → Pair → Sys (Option Error)
  unfolding end_reconfigure
  upgrade_reconfigure_ports state_dir cp = do
    let c = new_checklist_manager state_dir
    reset_state_dir c "reconfigure-ports"
    mark_in_progress c "reconfigure-ports"
    let (old_port, new_port, dir) = get_ports_and_data_dir_for_reconfiguration cp
    outcome ← run_command exec (sed_command new_port old_port dir)
    end_reconfigure c outcome.error

  -- `PrepareShutdownClusters`: what it starts in the background, and the pair.
  unfoldable pub prepare_shutdown_clusters : FilePath → Pair → Sys (Background × Pair)
  prepare_shutdown_clusters state_dir cp = do
    found ← either_postmaster_running exec cp
    let work = stop_everything exec (state_dir / "gpstop") found.1
    pure (if found.0 then some work else none, found.1)
