-- ===== src/Hub/SaveConfig/Keeps.antt =====
-- The directories of the other steps around `CheckConfig`.
use gpupgrade.Base.{String, ℤ, ◌≢◌, Option, none, some, ◌≡◌, false}
use gpupgrade.System.{FilePath, ◌/◌, is_within, Error, database_connection, ok, err}
use gpupgrade.System.PathLaws.{is_within_self, siblings_apart}
use gpupgrade.System.Keeps.{Keeps, Keeps-pure, Keeps-bind}
use gpupgrade.Config.Segment.{Codec, get_config_file_path}
use gpupgrade.Checklist.{
  new_checklist_manager, reset_state_dir, mark_in_progress, mark_failed, mark_complete,
}
use gpupgrade.Checklist.Keeps.{
  Keeps-reset_state_dir, Keeps-mark_in_progress, Keeps-mark_failed, Keeps-mark_complete,
}
use gpupgrade.Hub.Database.{Env, Database}
use gpupgrade.Hub.SaveConfig.{
  save_old_cluster_config, check_config, connected, conclude, connection,
}
use gpupgrade.Hub.SaveConfig.Laws.{save_old-Keeps}

module _ (json : Codec) (db : Database) (env : Env) (base : FilePath) (port : ℤ) (bin : String)
    (other : String) (apart : "check-config" ≢ other)
    (no_file : "cluster_config.json" ≢ other) where
  conclude-Keeps : (e : Option Error) → Keeps (base / other) (conclude json db base e)
  unfolding conclude
  conclude-Keeps none =
      Keeps-bind (base / other) (mark_complete (new_checklist_manager base) "check-config") _
        (Keeps-mark_complete base "check-config" other apart)
        λ x. Keeps-pure (base / other) (ok "All good")
  conclude-Keeps (some e) =
      Keeps-bind (base / other) (mark_failed (new_checklist_manager base) "check-config") _
        (Keeps-mark_failed base "check-config" other apart) λ x. Keeps-pure (base / other) (err e)

  connected-Keeps :
      (e : Option Error) → Keeps (base / other) (connected json db env base port bin e)
  unfolding connected
  connected-Keeps (some e) = conclude-Keeps (some (database_connection e))
  connected-Keeps none =
      let p = get_config_file_path base in
      let outside : is_within (base / other) p ≡ false =
        siblings_apart base "cluster_config.json" other p no_file (is_within_self p) in
      Keeps-bind (base / other)
        (save_old_cluster_config json db (connection json db env port) base bin) _
        (save_old-Keeps json db (base / other) (connection json db env port) base bin outside)
        λ saved. conclude-Keeps saved

  pub check_config-Keeps : Keeps (base / other) (check_config json db env base port bin)
  unfolding check_config
  check_config-Keeps =
      Keeps-bind (base / other) (reset_state_dir (new_checklist_manager base) "check-config") _
        (Keeps-reset_state_dir base "check-config" other apart)
        λ x.
          Keeps-bind (base / other) (mark_in_progress (new_checklist_manager base) "check-config") _
            (Keeps-mark_in_progress base "check-config" other apart)
            λ y. connected-Keeps (db.connect (connection json db env port))
