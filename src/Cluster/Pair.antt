-- ===== src/Cluster/Pair.antt =====
-- hub/cluster/cluster_pair.go
pub mod Laws
pub mod Shutdown
pub mod Fresh
use gpupgrade.Base.{
  String, ◌<>◌, ℤ, pos, minus_one, int_eq, Bool, true, false, ◌||◌, ◌&&◌, Option, none, some, [],
  ◌∷◌, ◌==◌, string_eq, if◌then◌else◌,
}
use gpupgrade.System.{
  FilePath, Error, plain, Result, ok, err, Sys, pure, ◌>>=◌, ◌>>◌, Execer, Cmd, run, run_command,
}
use gpupgrade.Config.Segment.{Codec}
use gpupgrade.Config.Reader.{
  Reader, new_reader, of_old_cluster_config, of_new_cluster_config, read, get_port_for_segment,
  get_master_data_dir, get_bin_dir,
}
use gpupgrade.Checklist.{
  ChecklistManager, new_checklist_manager, reset_state_dir, mark_in_progress, mark_failed,
  mark_complete,
}

pub record Pair : Type 0 where
  pub old_cluster_reader : Reader
  pub new_cluster_reader : Reader
  pub old_master_port : ℤ
  pub new_master_port : ℤ
  pub old_master_data_directory : String
  pub new_master_data_directory : String
  pub old_bin_dir : String
  pub new_bin_dir : String
  pub old_postmaster_running : Bool
  pub new_postmaster_running : Bool

abbrev pub empty_pair : Pair
empty_pair = record {
  old_cluster_reader = new_reader;
  new_cluster_reader = new_reader;
  old_master_port = pos 0;
  new_master_port = pos 0;
  old_master_data_directory = "";
  new_master_data_directory = "";
  old_bin_dir = "";
  new_bin_dir = "";
  old_postmaster_running = false;
  new_postmaster_running = false;
}

-- `if cp.OldMasterPort != 0 { … } else { GetPortForSegment(1) }`, and the same for directories.
module _ (json : Codec) where
  port_or : ℤ → Reader → Sys (ℤ × Reader)
  port_or port r = if port == pos 0 then get_port_for_segment json (pos 1) r else pure (port, r)

  data_dir_or : String → Reader → Sys (String × Reader)
  data_dir_or dir r = if dir == "" then get_master_data_dir json r else pure (dir, r)

  -- The ports, or an error; a port that is known is not checked against -1.
  unfoldable pub get_master_ports : Pair → Sys (Result (ℤ × ℤ) × Pair)
  unfolding port_or
  get_master_ports cp = do
    old ← port_or cp.old_master_port cp.old_cluster_reader
    let cp1 = record cp { old_cluster_reader = old.1 }
    if cp.old_master_port == pos 0 && old.0 == minus_one
        then pure (err (plain "could not find port from old config"), cp1)
        else do
          new ← port_or cp.new_master_port cp.new_cluster_reader
          let cp2 = record cp1 { new_cluster_reader = new.1 }
          if cp.new_master_port == pos 0 && new.0 == minus_one
              then pure (err (plain "could not find port from new config"), cp2)
              else pure (ok (old.0, new.0), cp2)

  unfoldable pub get_master_data_dirs : Pair → Sys (Result (String × String) × Pair)
  unfolding data_dir_or
  get_master_data_dirs cp = do
    old ← data_dir_or cp.old_master_data_directory cp.old_cluster_reader
    let cp1 = record cp { old_cluster_reader = old.1 }
    if old.0 == "" then pure (err (plain "could not find old master data directory"), cp1) else do
      new ← data_dir_or cp.new_master_data_directory cp.new_cluster_reader
      let cp2 = record cp1 { new_cluster_reader = new.1 }
      if new.0 == ""
          then pure (err (plain "could not find new master data directory"), cp2)
          else pure (ok (old.0, new.0), cp2)

  -- The two assignments at the end of `init`, which are made on an error too.
  abbrev set_ports : Result (ℤ × ℤ) → Pair → Pair
  set_ports (err e) cp = record cp { old_master_port = minus_one; new_master_port = minus_one }
  set_ports (ok (old, new)) cp = record cp { old_master_port = old; new_master_port = new }

  abbrev set_data_dirs : Result (String × String) → Option Error × Pair → Option Error × Pair
  set_data_dirs (err e) (x, cp) =
      (some e, record cp { old_master_data_directory = ""; new_master_data_directory = "" })
  set_data_dirs (ok (old, new)) (x, cp) =
      (none, record cp { old_master_data_directory = old; new_master_data_directory = new })

  init_dirs : Result (ℤ × ℤ) → Pair → Sys (Option Error × Pair)
  init_dirs (err e) cp = pure (some e, cp)
  init_dirs (ok ports) cp = do
    dirs ← get_master_data_dirs cp
    pure (set_data_dirs dirs.0 (none, dirs.1))

  init_values : Pair → Sys (Option Error × Pair)
  unfolding init_dirs
  init_values cp = do
    old_bin ← get_bin_dir json cp.old_cluster_reader
    new_bin ← get_bin_dir json cp.new_cluster_reader
    ports ← get_master_ports (record cp {
      old_cluster_reader = old_bin.1;
      new_cluster_reader = new_bin.1;
      old_bin_dir = old_bin.0;
      new_bin_dir = new_bin.0;
    })
    init_dirs ports.0 (set_ports ports.0 ports.1)

  unfoldable pub init : FilePath → Pair → Sys (Option Error × Pair)
  unfolding init_values
  init base cp = do
    old ← read json (of_old_cluster_config base new_reader)
    let cp1 = record cp { old_cluster_reader = old.1 }
    elim old.0 [
      | some e ↦ pure (some (plain "couldn't read old config file"), cp1)
      | none ↦ do
        new ← read json (of_new_cluster_config base new_reader)
        let cp2 = record cp1 { new_cluster_reader = new.1 }
        elim new.0 [
          | some e ↦ pure (some (plain "couldn't read new config file"), cp2)
          | none ↦ init_values cp2
        ]
    ]

  -- `NewClusterPair` drops the error of `init`.
  unfoldable pub new_cluster_pair : FilePath → Sys Pair
  unfolding init
  new_cluster_pair base = do made ← init base empty_pair; pure made.1

abbrev pub is_none {ℓ} : {A : Type ℓ} → Option A → Bool
is_none none = true
is_none (some a) = false

module _ (exec : Execer) where
  unfoldable pub postmaster_running : String → Sys Bool
  postmaster_running master_data_dir = do
    outcome ← run_command exec (record {
      mode = run;
      name = "bash";
      args = "-c" ∷ ("pgrep -F " <> (master_data_dir <> "/postmaster.pid")) ∷ [];
    })
    pure (is_none outcome.error)

  unfoldable pub either_postmaster_running : Pair → Sys (Bool × Pair)
  unfolding postmaster_running
  either_postmaster_running cp = do
    old ← postmaster_running cp.old_master_data_directory
    new ← postmaster_running cp.new_master_data_directory
    pure (old || new, record cp { old_postmaster_running = old; new_postmaster_running = new })

  abbrev pub gpstop_command : String → String → Cmd
  gpstop_command bin_dir master_data_dir = record {
    mode = run;
    name = "bash";
    args =
        "-c"
        ∷ ("source "
            <> (bin_dir
                <> ("/../greenplum_path.sh; "
                    <> (bin_dir <> ("/gpstop -a -d " <> master_data_dir)))))
        ∷ [];
  }

  abbrev pub record_outcome : ChecklistManager → String → Option Error → Sys (Option Error)
  record_outcome manager step none = mark_complete manager step
  record_outcome manager step (some e) = mark_failed manager step

  unfoldable pub stop_cluster : ChecklistManager → String → String → String → Sys (Unit {0})
  stop_cluster manager step bin_dir master_data_dir = do
    reset_state_dir manager step
    marked ← mark_in_progress manager step
    elim marked [
      | some e ↦ pure tt
      | none ↦ do
        outcome ← run_command exec (gpstop_command bin_dir master_data_dir)
        record_outcome manager step outcome.error
        pure tt
    ]

  unfoldable pub stop_if : Bool → Sys (Unit {0}) → Sys (Unit {0})
  stop_if is_running stop = if is_running then stop else pure tt

  unfoldable pub stop_everything : FilePath → Pair → Sys (Unit {0})
  unfolding stop_cluster stop_if
  stop_everything path_to_gpstop_state_dir cp = do
    let manager = new_checklist_manager path_to_gpstop_state_dir
    stop_if cp.old_postmaster_running
        (stop_cluster manager "gpstop.old" cp.old_bin_dir cp.old_master_data_directory)
    stop_if cp.new_postmaster_running
        (stop_cluster manager "gpstop.new" cp.new_bin_dir cp.new_master_data_directory)

abbrev pub get_ports_and_data_dir_for_reconfiguration : Pair → ℤ × ℤ × String
get_ports_and_data_dir_for_reconfiguration cp =
    (cp.old_master_port, cp.new_master_port, cp.new_master_data_directory)
