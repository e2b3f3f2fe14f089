-- ===== src/Cluster/Pair/Fresh.antt =====
-- hub/cluster/cluster_pair.go: stopping the clusters where the directory of the shutdown is not there yet.
use gpupgrade.Base.{Bool, false, ap, String, true, ◌||◌, ◌≡◌, refl, none, [], arith}
use gpupgrade.System.{run_command, FilePath, ◌/◌, World, Execer, node_at}
use gpupgrade.Checklist.{new_checklist_manager}
use gpupgrade.Checklist.Calm.{Exists}
use gpupgrade.Checklist.Outside.{with_dir, reset-with_dir}
use gpupgrade.Cluster.Pair.Laws.{stop_error}
use gpupgrade.Cluster.Pair.Shutdown.{old_failed, new_failed}
use gpupgrade.Cluster.Ssher.{is_error}
use gpupgrade.Checklist.Lifecycle.{perform, start}
use gpupgrade.Cluster.Pair.{gpstop_command, Pair, stop_cluster, stop_if, stop_everything}

module _ (exec : Execer) (base : FilePath) (name : String) (v : World) (calm : v.faults ≡ [])
    (there : Exists base v.fs) (fresh : node_at (base / name) v.fs ≡ none) where
  abbrev gpstop : FilePath
  gpstop = base / name

  abbrev made : World
  made = with_dir base name "" v calm there fresh

  stop_cluster-made :
      (step bin_dir data_dir : String)
      → stop_cluster exec (new_checklist_manager gpstop) step bin_dir data_dir v
        ≡ stop_cluster exec (new_checklist_manager gpstop) step bin_dir data_dir made
  unfolding stop_cluster
  stop_cluster-made step bin_dir data_dir =
      rw (reset-with_dir base name step v calm there fresh) refl

  -- If a cluster is stopped, it does not matter whether the directory of the shutdown was there.
  pub stop_everything-made :
      (cp : Pair)
      → (cp.old_postmaster_running || cp.new_postmaster_running) ≡ true
      → stop_everything exec gpstop cp v ≡ stop_everything exec gpstop cp made
  unfolding stop_everything stop_if
  stop_everything-made cp h = ground (
    arith,
    stop_cluster-made "gpstop.old" cp.old_bin_dir cp.old_master_data_directory,
    stop_cluster-made "gpstop.new" cp.new_bin_dir cp.new_master_data_directory,
  )

  -- Nor does it matter to the outcome of `gpstop`.
  stop_error-made :
      (step bin_dir data_dir : String)
      → stop_error exec gpstop step bin_dir data_dir v
        ≡ stop_error exec gpstop step bin_dir data_dir made
  stop_error-made step bin_dir data_dir =
      ap
        (λ r.
          (run_command exec (gpstop_command exec bin_dir data_dir)
            (perform gpstop step start r.1).1).0.error)
        (reset-with_dir base name step v calm there fresh)

  abbrev fails_after : Pair → World → Bool
  fails_after cp w =
      is_error (stop_error exec gpstop "gpstop.new" cp.new_bin_dir cp.new_master_data_directory w)

  after-made :
      (b : Bool) (cp : Pair)
      → let stop =
          stop_cluster exec
            (new_checklist_manager gpstop)
            "gpstop.old"
            cp.old_bin_dir
            cp.old_master_data_directory in
        fails_after cp (stop_if exec b stop v).1 ≡ fails_after cp (stop_if exec b stop made).1
  unfolding stop_if
  after-made true cp =
      ap (λ r. fails_after cp r.1)
        (stop_cluster-made "gpstop.old" cp.old_bin_dir cp.old_master_data_directory)
  after-made false cp =
      ap is_error (stop_error-made "gpstop.new" cp.new_bin_dir cp.new_master_data_directory)

  pub failed-made :
      (cp : Pair)
      → (old_failed exec gpstop cp v ≡ old_failed exec gpstop cp made)
        × (new_failed exec gpstop cp v ≡ new_failed exec gpstop cp made)
  failed-made cp = (
    ap is_error (stop_error-made "gpstop.old" cp.old_bin_dir cp.old_master_data_directory),
    after-made cp.old_postmaster_running cp,
  )
