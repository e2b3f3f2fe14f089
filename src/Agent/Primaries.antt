-- ===== src/Agent/Primaries.antt =====
-- agent/services/convert_primary.go
pub mod Laws
use gpupgrade.Base.{String, ◌<>◌, ℤ, decimal, Option, none, some, List, [], ◌∷◌}
use gpupgrade.System.{
  FilePath, path_text, ◌/◌, around, Error, plain, Result, ok, err, Sys, pure, ◌>>=◌, glob,
  mkdir_all, Execer, Cmd, combined_output, start, run_command,
}
use gpupgrade.Idl.{DataDirPair, ConvertPrimariesRequest}

abbrev pub segment_dir : FilePath → DataDirPair → FilePath
segment_dir state_dir segment = state_dir / "pg_upgrade" / ("seg-" <> decimal segment.content)

abbrev pub cp_command : FilePath → FilePath → Cmd
cp_command oid_file path_to_segment = record {
  mode = combined_output;
  name = "cp";
  args = path_text oid_file ∷ path_text path_to_segment ∷ [];
}

abbrev pub convert_command : ConvertPrimariesRequest → FilePath → DataDirPair → Cmd
convert_command q path_to_segment segment = record {
  mode = start;
  name = "bash";
  args =
      "-c"
      ∷ ("cd "
          <> (path_text path_to_segment
              <> (" && nohup "
                  <> (q.new_bin_dir
                      <> ("/pg_upgrade --old-bindir="
                          <> (q.old_bin_dir
                              <> (" --old-datadir="
                                  <> (segment.old_data_dir
                                      <> (" --new-bindir="
                                          <> (q.new_bin_dir
                                              <> (" --new-datadir="
                                                  <> (segment.new_data_dir
                                                      <> (" --old-port="
                                                          <> (decimal segment.old_port
                                                            <> (" --new-port="
                                                            <> (decimal segment.new_port
                                                            <> " --progress"))))))))))))))))
      ∷ [];
}

module _ (exec : Execer) where
  -- The loop over the OID files.
  unfoldable pub copy_all : List FilePath → FilePath → Sys (Option Error)
  copy_all [] path_to_segment = pure none
  copy_all (oid_file ∷ oid_files) path_to_segment = do
    outcome ← run_command exec (cp_command oid_file path_to_segment)
    elim outcome.error [ some e ↦ pure (some e) | none ↦ copy_all oid_files path_to_segment ]

  -- One turn of the loop over the segments.
  unfoldable pub convert_segment :
      FilePath → ConvertPrimariesRequest → List FilePath → DataDirPair → Sys (Option Error)
  unfolding copy_all
  convert_segment state_dir q oid_files segment = do
    let path_to_segment = segment_dir state_dir segment
    made ← mkdir_all path_to_segment
    elim made [
      | some e ↦ pure (some e)
      | none ↦ do
        copied ← copy_all oid_files path_to_segment
        elim copied [
          | some e ↦ pure (some e)
          | none ↦ do
            outcome ← run_command exec (convert_command q path_to_segment segment)
            pure outcome.error
        ]
    ]

  unfoldable pub convert_segments :
      FilePath → ConvertPrimariesRequest → List FilePath → List DataDirPair → Sys (Option Error)
  unfolding convert_segment
  convert_segments state_dir q oid_files [] = pure none
  convert_segments state_dir q oid_files (segment ∷ segments) = do
    failure ← convert_segment state_dir q oid_files segment
    elim failure [ some e ↦ pure (some e) | none ↦ convert_segments state_dir q oid_files segments ]

  -- What the glob found, and its error.
  convert_with :
      FilePath → ConvertPrimariesRequest → List FilePath × Option Error → Sys (Option Error)
  unfolding convert_segments
  convert_with state_dir q (oid_files, some e) = pure (some e)
  convert_with state_dir q ([], none) = pure (some (plain "No OID files found"))
  convert_with state_dir q (f ∷ oid_files, none) =
      convert_segments state_dir q (f ∷ oid_files) q.data_dir_pairs

  -- `UpgradeConvertPrimarySegments`: the error of the reply.
  unfoldable pub upgrade_convert_primary_segments :
      FilePath → ConvertPrimariesRequest → Sys (Option Error)
  unfolding convert_with
  upgrade_convert_primary_segments state_dir q = do
    oid_files ← glob (record {
      dir = state_dir / "pg_upgrade";
      parts = around "pg_upgrade_dump_" "_oids.sql" ∷ [];
    })
    convert_with state_dir q oid_files
