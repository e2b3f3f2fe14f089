-- ===== src/Agent/Primaries/Laws.antt =====
-- agent/services/convert_primary.go: the commands of a conversion.
use gpupgrade.Base.{
  ◌≡◌, refl, ◌≢◌, none, List, [], ◌∷◌, ◌++◌, map, arith, Option-cases, List-cases, inl, inr,
}
use gpupgrade.System.{
  FilePath, ◌/◌, around, Pattern, mkdir_tree, World, Execer, Cmd, run_command, glob, mkdir_all,
}
use gpupgrade.System.{reading-commands, writing-commands, log_after, log_after-append}
use gpupgrade.Idl.{DataDirPair, ConvertPrimariesRequest}
use gpupgrade.Agent.Primaries.{
  segment_dir, cp_command, convert_command, copy_all, convert_segment, convert_segments,
  convert_with, upgrade_convert_primary_segments,
}

-- The commands for one segment: a copy of each file, and then the conversion.
abbrev pub planned : FilePath → ConvertPrimariesRequest → List FilePath → DataDirPair → List Cmd
planned dir q files segment =
    map (λ f. cp_command f (segment_dir dir segment)) files
    ++ (convert_command q (segment_dir dir segment) segment ∷ [])

abbrev pub all_planned :
    FilePath → ConvertPrimariesRequest → List FilePath → List DataDirPair → List Cmd
all_planned dir q files [] = []
all_planned dir q files (s ∷ segments) = planned dir q files s ++ all_planned dir q files segments

abbrev pub oid_files : FilePath → Pattern
oid_files dir = record {
  dir = dir / "pg_upgrade";
  parts = around "pg_upgrade_dump_" "_oids.sql" ∷ [];
}

module _ (exec : Execer) where
  copy_all-commands :
      (files : List FilePath) (p : FilePath) (w : World)
      → (copy_all exec files p w).0 ≡ none
      → (copy_all exec files p w).1.commands
        ≡ log_after (map (λ f. cp_command f p) files) w.commands
  unfolding copy_all run_command
  copy_all-commands [] p w h = refl
  copy_all-commands (f ∷ files) p w h =
      let r = run_command exec (cp_command f p) w in
      elim (Option-cases r.0.error) [
        | inl fine ↦ ground (arith, copy_all-commands files p r.1)
        | inr (e, bad) ↦ absurd (ground arith)
      ]

  convert_segment-commands :
      (dir : FilePath) (q : ConvertPrimariesRequest) (files : List FilePath) (s : DataDirPair)
      (w : World)
      → (convert_segment exec dir q files s w).0 ≡ none
      → (convert_segment exec dir q files s w).1.commands
        ≡ log_after (planned dir q files s) w.commands
  unfolding convert_segment run_command
  convert_segment-commands dir q files s w h =
      let p = segment_dir dir s in
      let made = mkdir_all p w in
      let copied = copy_all exec files p made.1 in
      let quiet : made.1.commands ≡ w.commands =
        unfold mkdir_all in writing-commands (mkdir_tree p) w in
      elim (Option-cases made.0) [
        | inr (e, bad) ↦ absurd (ground arith)
        | inl fine ↦ elim (Option-cases copied.0) [
          | inr (e, bad) ↦ absurd (ground arith)
          | inl all_copied ↦ ground (
            arith,
            quiet,
            copy_all-commands files p made.1,
            log_after-append (map (λ f. cp_command f p) files) (convert_command q p s ∷ [])
                w.commands,
          )
        ]
      ]

  convert_segments-commands :
      (dir : FilePath) (q : ConvertPrimariesRequest) (files : List FilePath)
      (segments : List DataDirPair) (w : World)
      → (convert_segments exec dir q files segments w).0 ≡ none
      → (convert_segments exec dir q files segments w).1.commands
        ≡ log_after (all_planned dir q files segments) w.commands
  unfolding convert_segments
  convert_segments-commands dir q files [] w h = refl
  convert_segments-commands dir q files (s ∷ segments) w h =
      let r = convert_segment exec dir q files s w in
      elim (Option-cases r.0) [
        | inr (e, bad) ↦ absurd (ground arith)
        | inl fine ↦ ground (
          arith,
          convert_segment-commands dir q files s w fine,
          convert_segments-commands dir q files segments r.1,
          log_after-append (planned dir q files s) (all_planned dir q files segments) w.commands,
        )
      ]

  -- If `UpgradeConvertPrimarySegments` returns no error, then it found OID files, and it has run, for
  -- each segment in order, a copy of each of these files and then the conversion, and nothing else.
  pub convert_primaries-commands :
      (dir : FilePath) (q : ConvertPrimariesRequest) (w : World)
      → (upgrade_convert_primary_segments exec dir q w).0 ≡ none
      → let files = (glob (oid_files dir) w).0.0 in
        (files ≢ [])
        × ((upgrade_convert_primary_segments exec dir q w).1.commands
            ≡ log_after (all_planned dir q files q.data_dir_pairs) w.commands)
  unfolding upgrade_convert_primary_segments convert_with
  convert_primaries-commands dir q w h =
      let found = glob (oid_files dir) w in
      let quiet : found.1.commands ≡ w.commands = unfold glob in reading-commands _ _ w in
      elim (Option-cases found.0.1) [
        | inr (e, bad) ↦ absurd (ground arith)
        | inl fine ↦ elim (List-cases found.0.0) [
          | inl empty ↦ absurd (ground arith)
          | inr (f, files, some_files) ↦
              ground
                (arith, quiet, convert_segments-commands dir q (f ∷ files) q.data_dir_pairs found.1)
        ]
      ]
