-- ===== src/Cli/Checkers.antt =====
-- cli/commanders/check_*.go: the method `Execute` of each checker; and version.go. Each returns its error.
use gpupgrade.Base.{
  String, ◌<>◌, ℤ, int32, decimal, Option, none, some, List, [], ◌∷◌, if◌then◌else◌, ◌==◌,
  string_eq, Bool,
}
use gpupgrade.System.{Error, ok, err}
use gpupgrade.Hub.Checks.{CountPerDb}
use gpupgrade.Cli.Session.{
  check_config_request, check_seginstall_request, check_object_count_request, check_version_request,
  check_disk_space_request, info, error, Machine, Cli, pure, ◌>>=◌, ◌>>◌, write, ask,
}

-- The answer of `gplog.Error("ERROR - gRPC call to hub failed"); return err`.
abbrev pub call_failed : Error → Cli (Option Error)
call_failed e = do write (error "ERROR - gRPC call to hub failed"); pure (some e)

abbrev pub processed : String → Cli (Option Error)
processed text = do write (info text); pure none

module _ (m : Machine) where
  unfoldable pub config_checker : ℤ → String → Cli (Option Error)
  config_checker db_port old_bin_dir = do
    reply ← ask m (check_config_request (int32 db_port) old_bin_dir)
    elim reply [ err e ↦ call_failed e | ok _ ↦ processed "Check config request is processed." ]

  unfoldable pub seginstall_checker : Cli (Option Error)
  seginstall_checker = do
    reply ← ask m check_seginstall_request
    elim reply [ err e ↦ pure (some e) | ok _ ↦ pure none ]

  -- The loop over `reply.SegmentFileSysUsage`.
  unfoldable pub write_usages : List String → Cli (Unit {0})
  write_usages [] = pure tt
  write_usages (usage ∷ usages) = do write (info usage); write_usages usages

  unfoldable pub disk_space_checker : Cli (Option Error)
  unfolding write_usages
  disk_space_checker = do
    reply ← ask m check_disk_space_request
    elim reply [
      | err e ↦ call_failed e
      | ok usages ↦ do write_usages usages; processed "Check disk space request is processed."
    ]

  -- The loop over `reply.ListOfCounts`.
  unfoldable pub write_counts : List CountPerDb → Cli (Unit {0})
  write_counts [] = pure tt
  write_counts (count ∷ counts) = do
    write (info ("Checking object counts in database: " <> count.db_name))
    write (info ("Number of AO objects - " <> decimal count.ao_count))
    write (info ("Number of heap objects - " <> decimal count.heap_count))
    write_counts counts

  unfoldable pub object_count_checker : ℤ → Cli (Option Error)
  unfolding write_counts
  object_count_checker db_port = do
    reply ← ask m (check_object_count_request (int32 db_port))
    elim reply [
      | err e ↦ call_failed e
      | ok counts ↦ do write_counts counts; processed "Check object count request is processed."
    ]

  abbrev verdict : Bool → String
  verdict compatible =
      if compatible
      then "gpupgrade: Version Compatibility Check [OK]\n"
      else "gpupgrade: Version Compatibility Check [Failed]\n"

  unfoldable pub version_checker : String → ℤ → Cli (Option Error)
  version_checker master_host db_port = do
    reply ← ask m (check_version_request master_host (int32 db_port))
    elim reply [
      | err e ↦ call_failed e
      | ok compatible ↦ do
        write (info (verdict compatible))
        processed "Check version request is processed."
    ]

-- `VersionString`, by the version set at build time.
unfoldable pub version_string : String → String
version_string upgrade_version =
    if upgrade_version == ""
    then "gpupgrade unknown version"
    else "gpupgrade version " <> upgrade_version
