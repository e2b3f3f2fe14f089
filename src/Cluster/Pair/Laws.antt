-- ===== src/Cluster/Pair/Laws.antt =====
-- hub/cluster/cluster_pair.go: the state directory after a cluster has been stopped.
use gpupgrade.Base.{String, ◌≡◌, Option, none, some, [], arith}
use gpupgrade.System.{FilePath, ◌/◌, Error, World, Execer, run_command}
use gpupgrade.Checklist.{new_checklist_manager}
use gpupgrade.Checklist.Lifecycle.{Shows, started}
use gpupgrade.Checklist.Calm.{Exists, begun, begun-Gives, fail-Gives, finish-Gives, Shows-subtree}
use gpupgrade.Cluster.Ssher.{is_error}
use gpupgrade.Cluster.Ssher.Laws.{Spares, outcome_phase}
use gpupgrade.Cluster.Pair.{gpstop_command, record_outcome, stop_cluster}

module _ (exec : Execer) (base : FilePath) (step bin_dir data_dir : String) (w : World) where
  abbrev ManagerEnded : Option Error → World → Type 0
  ManagerEnded e v =
      let w' = (record_outcome exec (new_checklist_manager base) step e v).1 in
      (w'.faults ≡ []) × Shows (base / step) (outcome_phase (is_error e)) w'.fs

  ended :
      (e : Option Error) (v : World)
      → v.faults ≡ []
      → Shows (base / step) started v.fs
      → ManagerEnded e v
  ended none v calm h = let (_, quiet, k) = finish-Gives base step v calm h in (quiet, k)
  ended (some e) v calm h = let (_, quiet, k) = fail-Gives base step v calm h in (quiet, k)

  abbrev stopping : World
  stopping = (run_command exec (gpstop_command exec bin_dir data_dir) (begun base step w)).1

  abbrev pub stop_error : Option Error
  stop_error = (run_command exec (gpstop_command exec bin_dir data_dir) (begun base step w)).0.error

  stop_cluster-ran :
      w.faults ≡ []
      → Exists base w.fs
      → (stop_cluster exec (new_checklist_manager base) step bin_dir data_dir w).1
        ≡ (record_outcome exec (new_checklist_manager base) step stop_error stopping).1
  unfolding stop_cluster
  stop_cluster-ran calm there = ground (arith, (begun-Gives base step w calm there).0)

  pub stop_cluster-Ended :
      w.faults ≡ []
      → Exists base w.fs
      → Spares exec (base / step)
      → let w' = (stop_cluster exec (new_checklist_manager base) step bin_dir data_dir w).1 in
        (w'.faults ≡ []) × Shows (base / step) (outcome_phase (is_error stop_error)) w'.fs
  unfolding run_command
  stop_cluster-Ended calm there spares =
      let (_, quiet, h) = begun-Gives base step w calm there in
      let v = begun base step w in
      rw (stop_cluster-ran calm there) (
        ended stop_error stopping quiet (
          Shows-subtree (base / step) started v.fs _
            (spares v.commands (gpstop_command exec bin_dir data_dir) v.fs) h))

  -- If no file operation fails, the directory of the shutdown exists and the commands leave the
  -- cluster's own directory in it alone, then after a cluster has been stopped its directory holds the
  -- completed marker alone if `gpstop` exited without an error, and the failed marker alone if not.
  stop_cluster-Shows :
      w.faults ≡ []
      → Exists base w.fs
      → Spares exec (base / step)
      → Shows
          (base / step)
          (outcome_phase (is_error stop_error))
          (stop_cluster exec (new_checklist_manager base) step bin_dir data_dir w).1.fs
  stop_cluster-Shows calm there spares = (stop_cluster-Ended calm there spares).1
