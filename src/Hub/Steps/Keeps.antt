-- ===== src/Hub/Steps/Keeps.antt =====
-- The directories of the other steps around the handlers of `Hub.Steps`.
use gpupgrade.Base.{String, Bool, true, false, ◌≢◌, Option, none, some, List, [], ◌∷◌}
use gpupgrade.System.{FilePath, ◌/◌, Error, Sys, pure, ◌>>=◌, Execer, run_command}
use gpupgrade.System.Keeps.{Keeps, Keeps-pure, Keeps-bind, Keeps-run_command}
use gpupgrade.Config.Segment.{Codec, MapOrder}
use gpupgrade.Config.Reader.{Reader, get_hostnames}
use gpupgrade.Config.Reader.Keeps.{get_hostnames-Keeps}
use gpupgrade.Checklist.{
  new_checklist_manager, reset_state_dir, mark_in_progress, mark_failed, mark_complete,
}
use gpupgrade.Checklist.Keeps.{
  Keeps-reset_state_dir, Keeps-mark_in_progress, Keeps-mark_failed, Keeps-mark_complete,
}
use gpupgrade.Cluster.Pair.{Pair, get_ports_and_data_dir_for_reconfiguration}
use gpupgrade.Cluster.Ssher.Laws.{Spares}
use gpupgrade.Hub.Steps.{
  rsync_command, gpstart_command, sed_command, hosts_of, rsync_all, after_rsync, finish_share,
  share_oid_files, start_new_cluster, end_validation, upgrade_reconfigure_ports, end_reconfigure,
}

module _ (exec : Execer) (base : FilePath) (other : String)
    (spares : Spares exec (base / other)) where
  abbrev d : FilePath
  d = base / other

  module _ (apart : "share-oids" ≢ other) where
    after_rsync-Keeps :
        (e : Option Error) (b : Bool) → Keeps d (after_rsync exec (new_checklist_manager base) e b)
    unfolding after_rsync
    after_rsync-Keeps none b = Keeps-pure d b
    after_rsync-Keeps (some e) b =
        Keeps-bind d (mark_failed (new_checklist_manager base) "share-oids") _
          (Keeps-mark_failed base "share-oids" other apart) λ x. Keeps-pure d true

    rsync_all-Keeps : (hosts : List String) (b : Bool) → Keeps d (rsync_all exec base hosts b)
    unfolding rsync_all
    rsync_all-Keeps [] b = Keeps-pure d b
    rsync_all-Keeps (host ∷ hosts) b =
        Keeps-bind d (run_command exec (rsync_command base host)) _
          (Keeps-run_command d exec (rsync_command base host)
            (λ log fs. spares log (rsync_command base host) fs))
          λ outcome.
            Keeps-bind d (after_rsync exec (new_checklist_manager base) outcome.error b) _
              (after_rsync-Keeps outcome.error b) λ failed. rsync_all-Keeps hosts failed

    finish_share-Keeps : (b : Bool) → Keeps d (finish_share exec (new_checklist_manager base) b)
    unfolding finish_share
    finish_share-Keeps true = Keeps-pure d tt
    finish_share-Keeps false =
        Keeps-bind d (mark_complete (new_checklist_manager base) "share-oids") _
          (Keeps-mark_complete base "share-oids" other apart) λ x. Keeps-pure d tt

    pub share_oid_files-Keeps :
        (json : Codec) (order : MapOrder) (r : Reader)
        → Keeps d (share_oid_files exec json order base r)
    unfolding share_oid_files
    share_oid_files-Keeps json order r =
        Keeps-bind d (reset_state_dir (new_checklist_manager base) "share-oids") _
          (Keeps-reset_state_dir base "share-oids" other apart)
          λ x.
            Keeps-bind d (mark_in_progress (new_checklist_manager base) "share-oids") _
              (Keeps-mark_in_progress base "share-oids" other apart)
              λ y.
                Keeps-bind d (get_hostnames json order r) _ (get_hostnames-Keeps d json order r)
                  λ found.
                    Keeps-bind d (rsync_all exec base (hosts_of found.0) false) _
                      (rsync_all-Keeps (hosts_of found.0) false)
                      λ any_failed.
                        Keeps-bind d (finish_share exec (new_checklist_manager base) any_failed) _
                          (finish_share-Keeps any_failed) λ z. Keeps-pure d found.1

  module _ (apart : "validate-start-cluster" ≢ other) where
    end_validation-Keeps :
        (e : Option Error) → Keeps d (end_validation exec (new_checklist_manager base) e)
    unfolding end_validation
    end_validation-Keeps none =
        Keeps-bind d (mark_complete (new_checklist_manager base) "validate-start-cluster") _
          (Keeps-mark_complete base "validate-start-cluster" other apart) λ x. Keeps-pure d tt
    end_validation-Keeps (some e) =
        Keeps-bind d (mark_failed (new_checklist_manager base) "validate-start-cluster") _
          (Keeps-mark_failed base "validate-start-cluster" other apart) λ x. Keeps-pure d tt

    module _ (pythonpath new_bin_dir new_data_dir : String) where
      abbrev gpstart : Sys (Unit {0})
      gpstart = do
        outcome ← run_command exec (gpstart_command pythonpath new_bin_dir new_data_dir)
        end_validation exec (new_checklist_manager base) outcome.error

      abbrev when_marked : Option Error → Sys (Unit {0})
      when_marked (some e) = pure tt
      when_marked none = gpstart

      when_marked-Keeps : (e : Option Error) → Keeps d (when_marked e)
      when_marked-Keeps (some e) = Keeps-pure d tt
      when_marked-Keeps none =
          let c = gpstart_command pythonpath new_bin_dir new_data_dir in
          Keeps-bind d (run_command exec c) _
            (Keeps-run_command d exec c (λ log fs. spares log c fs))
            λ outcome. end_validation-Keeps outcome.error

      abbrev when_cleared : Option Error → Sys (Unit {0})
      when_cleared (some e) = pure tt
      when_cleared none = do
        marked ← mark_in_progress (new_checklist_manager base) "validate-start-cluster"
        when_marked marked

      when_cleared-Keeps : (e : Option Error) → Keeps d (when_cleared e)
      when_cleared-Keeps (some e) = Keeps-pure d tt
      when_cleared-Keeps none =
          Keeps-bind d (mark_in_progress (new_checklist_manager base) "validate-start-cluster") _
            (Keeps-mark_in_progress base "validate-start-cluster" other apart)
            λ marked. when_marked-Keeps marked

      pub start_new_cluster-Keeps :
          Keeps d (start_new_cluster exec pythonpath base new_bin_dir new_data_dir)
      unfolding start_new_cluster
      start_new_cluster-Keeps =
          Keeps-bind d (reset_state_dir (new_checklist_manager base) "validate-start-cluster") _
            (Keeps-reset_state_dir base "validate-start-cluster" other apart)
            λ cleared. when_cleared-Keeps cleared

  module _ (apart : "reconfigure-ports" ≢ other) where
    end_reconfigure-Keeps :
        (e : Option Error) → Keeps d (end_reconfigure exec (new_checklist_manager base) e)
    unfolding end_reconfigure
    end_reconfigure-Keeps none =
        Keeps-bind d (mark_complete (new_checklist_manager base) "reconfigure-ports") _
          (Keeps-mark_complete base "reconfigure-ports" other apart) λ x. Keeps-pure d none
    end_reconfigure-Keeps (some e) =
        Keeps-bind d (mark_failed (new_checklist_manager base) "reconfigure-ports") _
          (Keeps-mark_failed base "reconfigure-ports" other apart) λ x. Keeps-pure d (some e)

    pub reconfigure_ports-Keeps : (cp : Pair) → Keeps d (upgrade_reconfigure_ports exec base cp)
    unfolding upgrade_reconfigure_ports
    reconfigure_ports-Keeps cp =
        let (old_port, new_port, dir) = get_ports_and_data_dir_for_reconfiguration cp in
        let c = sed_command new_port old_port dir in
        Keeps-bind d (reset_state_dir (new_checklist_manager base) "reconfigure-ports") _
          (Keeps-reset_state_dir base "reconfigure-ports" other apart)
          λ x.
            Keeps-bind d (mark_in_progress (new_checklist_manager base) "reconfigure-ports") _
              (Keeps-mark_in_progress base "reconfigure-ports" other apart)
              λ y.
                Keeps-bind d (run_command exec c) _
                  (Keeps-run_command d exec c (λ log fs. spares log c fs))
                  λ outcome. end_reconfigure-Keeps outcome.error
