-- ===== src/Tests/Agent.antt =====
-- What an agent answers.
use gpupgrade.Base.{after_prefix, has_suffix, true, false, ◌≡◌, refl, ◌≢◌, [], ◌∷◌, pos, decimal}
use gpupgrade.System.{
  part_matches, around, ◌/◌, dir, file, Fs, ok, glob, log_after, stat, stat_file, glob_files,
  mkdir_all, mkdir_tree, run_command,
}
use gpupgrade.Idl.{SegmentInfo, ConvertPrimariesRequest, step_status_name}
use gpupgrade.Status.ConvertMaster.{get_status}
use gpupgrade.Agent.Conversion.{check_conversion_status}
use gpupgrade.Agent.Conversion.Laws.{check_conversion_status-lines, lines_of}
use gpupgrade.Agent.Primaries.{upgrade_convert_primary_segments}
use gpupgrade.Agent.Primaries.Laws.{all_planned, oid_files, convert_primaries-commands}
use gpupgrade.Tests.{base, tree, world, with_files, succeeds}

abbrev mirror : SegmentInfo
mirror = record { content = pos 0; dbid = pos 2; data_dir = "/data/primary0" }

check_conversion_status-lines_example :
    (check_conversion_status succeeds base "sdw1" (mirror ∷ []) world).0
    ≡ ok ("" ∷ "PENDING - DBID 2 - CONTENT ID 0 - PRIMARY - sdw1" ∷ [])
unfolding get_status lines_of stat decimal step_status_name stat_file
check_conversion_status-lines_example =
    check_conversion_status-lines succeeds base "sdw1" mirror [] world

abbrev request : ConvertPrimariesRequest
request = record {
  old_bin_dir = "/old/bin";
  new_bin_dir = "/new/bin";
  data_dir_pairs =
      record {
        old_data_dir = "/old/primary0";
        new_data_dir = "/new/primary0";
        old_port = pos 25432;
        new_port = pos 35432;
        content = pos 0;
      }
      ∷ [];
}

abbrev shared : Fs
shared =
    (base / "pg_upgrade" / "pg_upgrade_dump_1_oids.sql", file "oids" 2)
    ∷ (base / "pg_upgrade", dir)
    ∷ tree

convert_primaries-commands_example :
    let files = (glob (oid_files base) (with_files shared)).0.0 in
    (files ≢ [])
    × ((upgrade_convert_primary_segments succeeds base request (with_files shared)).1.commands
        ≡ log_after (all_planned base request files request.data_dir_pairs) [])
unfolding upgrade_convert_primary_segments glob glob_files mkdir_all mkdir_tree decimal run_command
convert_primaries-commands_example =
    convert_primaries-commands succeeds base request (with_files shared) refl

-- The texts on both sides of `*` do not overlap.
no_overlap : part_matches (around "pg_upgrade_dump_" "_oids.sql") "pg_upgrade_dump_oids.sql" ≡ false
unfolding part_matches after_prefix has_suffix
no_overlap = refl

dump_matches :
    part_matches (around "pg_upgrade_dump_" "_oids.sql") "pg_upgrade_dump_12_oids.sql" ≡ true
unfolding part_matches after_prefix has_suffix
dump_matches = refl
